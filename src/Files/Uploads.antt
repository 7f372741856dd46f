-- ===== src/Files/Uploads.antt =====
-- Every outcome of `upload` of apps/api/src/modules/files/services/file.service.ts, over `putObject`
-- of packages/storage/src/index.ts.
use savemycontrollers.Errors.{internal, validation}
use savemycontrollers.Files.{
  FileStore, StoredObject, FileAsset, related_name, UploadInput, Environment, upload,
}
use savemycontrollers.Files.Names.{sanitize_display_file_name}
use text.Mathlib.Text.{◌==◌ as str_eq}
use Prim.Native.String.{◌++◌ as text_append}
use savemycontrollers.Prelude.{
  String, Uuid, true, false, none, some, [], ◌∷◌, ◌++◌, ok, err, ◌≡◌, ◌≤◌, ◌<◌, ◌⊎◌, ◌==◌, any, not,
  ◌&&◌, if◌then◌else◌,
}

module _ {B : Type 0} (env : Environment B) where
  -- A file of at least one byte and at most 15 MB whose content is of an allowed type, which is the
  -- declared one where one is declared.
  pub record IsAcceptable (input : UploadInput B) (mime : String) : Type 0 where
    pub some_bytes : 0 < env.byte_length input.buffer
    pub small : env.byte_length input.buffer ≤ 15728640
    pub found : env.detect_real_mime_type input.buffer ≡ some mime
    pub allowed :
        any
          (λ t. str_eq t mime)
          ("image/jpeg" ∷ "image/png" ∷ "image/webp" ∷ "application/pdf" ∷ [])
        ≡ true
    pub agrees :
        (not (str_eq input.declared_mime_type "") && not (str_eq input.declared_mime_type mime))
        ≡ false

  -- The end of the key of an object of a type.
  abbrev pub suffix_of : String → String
  suffix_of mime =
      if str_eq mime "image/jpeg"
      then "jpg"
      else if str_eq mime "image/png"
      then "png"
      else if str_eq mime "image/webp"
      then "webp"
      else if str_eq mime "application/pdf"
      then "pdf"
      else "bin"

  abbrev pub key_of : String → String → UploadInput B → String
  key_of random_uuid mime input =
      text_append (related_name input.related_entity_type)
        (text_append "/" (text_append random_uuid (text_append "." (suffix_of mime))))

  -- The object and the row of a file.
  abbrev pub object_of : String → String → UploadInput B → StoredObject B
  object_of random_uuid mime input = record {
    key = key_of random_uuid mime input;
    body = input.buffer;
    content_type = mime;
  }

  abbrev pub row_of : Uuid → String → String → UploadInput B → FileAsset
  row_of i random_uuid mime input = record {
    id = i;
    storage_key = key_of random_uuid mime input;
    original_file_name =
        sanitize_display_file_name env.is_letter_or_number input.original_file_name;
    mime_type = mime;
    size_bytes = env.byte_length input.buffer;
    visibility = input.visibility;
    uploaded_by_user_id = input.uploaded_by_user_id;
    related_entity_type = input.related_entity_type;
    related_entity_id = input.related_entity_id;
  }

  -- The bucket after the PUT, and the table as before.
  abbrev pub with_object : StoredObject B → FileStore B → FileStore B
  with_object o s = record s { objects = s.objects ++ o ∷ [] }

  abbrev pub with_row : FileAsset → FileStore B → FileStore B
  with_row a s = record s { assets = s.assets ++ a ∷ [] }

  -- How the upload of an acceptable file ends.
  abbrev pub Ending : Uuid → String → String → UploadInput B → FileStore B → Type 0
  Ending i random_uuid mime input s =
      ((m : String) × (env.put_error (key_of random_uuid mime input) ≡ some m)
        × (upload env i random_uuid input s ≡ (err (internal m), s)))
      ⊎ ((m : String) × (env.put_error (key_of random_uuid mime input) ≡ none)
          × (env.insert_error i ≡ some m)
          × (upload env i random_uuid input s
              ≡ (err (internal m), with_object (object_of random_uuid mime input) s)))
      ⊎ ((env.put_error (key_of random_uuid mime input) ≡ none)
          × (env.insert_error i ≡ none)
          × (upload env i random_uuid input s ≡ (
            ok (row_of i random_uuid mime input),
            with_row (row_of i random_uuid mime input)
                (with_object (object_of random_uuid mime input) s),
          )))

  abbrev pub Outcome : Uuid → String → UploadInput B → FileStore B → Type 0
  Outcome i random_uuid input s =
      ((m : String) × ((mime : String) → IsAcceptable input mime → ⊥)
        × (upload env i random_uuid input s ≡ (err (validation m), s)))
      ⊎ ((mime : String) × IsAcceptable input mime × Ending i random_uuid mime input s)
