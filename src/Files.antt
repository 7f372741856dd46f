-- ===== src/Files.antt =====
-- The files of the customers: apps/api/src/modules/files, and packages/storage/src/index.ts.
-- `file-type`, the tables of Unicode and the object store are parameters.
pub mod Names
pub mod Uploads
pub mod Access
mod Tests
use text.Mathlib.Text.{◌==◌ as str_eq}
use Prim.Native.String.{◌++◌}
use savemycontrollers.Errors.{forbidden, internal, not_found, validation}
use savemycontrollers.Files.Names.{sanitize_display_file_name}
use savemycontrollers.Prelude.{
  ℕ, String, Uuid, Bool, true, false, Option, none, some, List, [], ◌∷◌, ◌++◌ as list_append, ◌*◌,
  ◌&&◌, ◌||◌, ◌==◌, not, ltb, any, find?, is_id, or_else, Action, pure, gets, throw, throw_if,
  or_throw, modify, ◌>>=◌, ◌>>◌, if◌then◌else◌,
}
use Prim.Native.Char.{Char}

pub data FileVisibility : Type 0 where
  private client internal_only : FileVisibility

-- `FileRelatedEntityType`, by the text that a storage key begins with.
pub data RelatedEntityType : Type 0 where
  order repair_case support_ticket company media_library : RelatedEntityType

abbrev pub related_name : Option RelatedEntityType → String
related_name none = "misc"
related_name (some order) = "ORDER"
related_name (some repair_case) = "REPAIR_CASE"
related_name (some support_ticket) = "SUPPORT_TICKET"
related_name (some company) = "COMPANY"
related_name (some media_library) = "MEDIA_LIBRARY"

pub record FileAsset : Type 0 where
  pub id : Uuid
  pub storage_key : String
  pub original_file_name : String
  pub mime_type : String
  pub size_bytes : ℕ
  pub visibility : FileVisibility
  pub uploaded_by_user_id : Option Uuid
  pub related_entity_type : Option RelatedEntityType
  pub related_entity_id : Option Uuid

-- An object of the private bucket. `B` is the type of buffers.
pub record StoredObject (B : Type 0) : Type 0 where
  pub key : String
  pub body : B
  pub content_type : String

pub record FileStore (B : Type 0) : Type 0 where
  pub objects : List (StoredObject B)
  pub assets : List FileAsset

pub record UploadInput (B : Type 0) : Type 0 where
  pub buffer : B
  pub original_file_name : String
  pub declared_mime_type : String
  pub visibility : FileVisibility
  pub uploaded_by_user_id : Option Uuid
  pub related_entity_type : Option RelatedEntityType
  pub related_entity_id : Option Uuid

abbrev pub allowed_mime_types : List String
allowed_mime_types = "image/jpeg" ∷ "image/png" ∷ "image/webp" ∷ "application/pdf" ∷ []

abbrev pub max_upload_size_bytes : ℕ
max_upload_size_bytes = 15 * 1024 * 1024

abbrev pub is_allowed_mime : String → Bool
is_allowed_mime mime = any (λ t. str_eq t mime) allowed_mime_types

-- `EXTENSION_BY_MIME[realMimeType] ?? "bin"`
abbrev pub extension_of : String → String
extension_of mime =
    if str_eq mime "image/jpeg"
    then "jpg"
    else if str_eq mime "image/png"
    then "png"
    else if str_eq mime "image/webp"
    then "webp"
    else if str_eq mime "application/pdf"
    then "pdf"
    else "bin"

-- `byteLength`, the type that `fileTypeFromBuffer` finds, `\p{L}` or `\p{N}`, and the errors, if any,
-- with which the object store answers a PUT of a key and the database the insert of a row.
pub record Environment (B : Type 0) : Type 0 where
  pub byte_length : B → ℕ
  pub detect_real_mime_type : B → Option String
  pub is_letter_or_number : Char → Bool
  pub put_error : String → Option String
  pub insert_error : Uuid → Option String

abbrev pub storage_key_of : Option RelatedEntityType → String → String → String
storage_key_of related random_uuid mime =
    related_name related ++ "/" ++ random_uuid ++ "." ++ extension_of mime

module _ {B : Type 0} (env : Environment B) where
  -- `client.send(new PutObjectCommand(…))`
  abbrev send_put : String → B → String → Action (FileStore B) (Unit {0})
  send_put key body content_type = elim (env.put_error key) [
    | some message ↦ throw (internal message)
    | none ↦ modify λ s. record s {
      objects =
          list_append s.objects
            (record { key = key; body = body; content_type = content_type } ∷ []);
    }
  ]

  unfoldable pub put_object : String → B → String → Action (FileStore B) (Unit {0})
  put_object key body content_type = do
    throw_if (not (is_allowed_mime content_type))
        (internal ("Type MIME non autorise: " ++ content_type))
    throw_if (ltb max_upload_size_bytes (env.byte_length body)) (internal "Fichier trop volumineux")
    send_put key body content_type

  -- The type that was found, where it is one of those allowed.
  abbrev pub accepted_mime : B → Option String
  accepted_mime buffer = elim (env.detect_real_mime_type buffer) [
    | none ↦ none
    | some mime ↦ if is_allowed_mime mime then some mime else none
  ]

  abbrev pub asset_row : Uuid → String → String → UploadInput B → FileAsset
  asset_row i random_uuid mime input = record {
    id = i;
    storage_key = storage_key_of input.related_entity_type random_uuid mime;
    original_file_name =
        sanitize_display_file_name env.is_letter_or_number input.original_file_name;
    mime_type = mime;
    size_bytes = env.byte_length input.buffer;
    visibility = input.visibility;
    uploaded_by_user_id = input.uploaded_by_user_id;
    related_entity_type = input.related_entity_type;
    related_entity_id = input.related_entity_id;
  }

  -- `files.create`, after the PUT.
  abbrev pub create_asset : FileAsset → Action (FileStore B) (Unit {0})
  create_asset row = elim (env.insert_error row.id) [
    | some message ↦ throw (internal message)
    | none ↦ modify λ s. record s { assets = list_append s.assets (row ∷ []) }
  ]

  -- `declaredMimeType && declaredMimeType !== realMimeType`
  abbrev pub contradicts : String → String → Bool
  contradicts declared mime = not (str_eq declared "") && not (str_eq declared mime)

  unfoldable pub upload : Uuid → String → UploadInput B → Action (FileStore B) FileAsset
  unfolding put_object
  upload i random_uuid input = do
    throw_if (ltb max_upload_size_bytes (env.byte_length input.buffer))
        (validation "Fichier trop volumineux.")
    throw_if (env.byte_length input.buffer == 0) (validation "Fichier vide.")
    mime ←
        or_throw (accepted_mime input.buffer)
          (validation "Type de fichier non autorise ou signature binaire non reconnue.")
    throw_if (contradicts input.declared_mime_type mime)
        (validation "Le type de fichier declare ne correspond pas au contenu reel du fichier.")
    put_object (storage_key_of input.related_entity_type random_uuid mime) input.buffer mime
    create_asset (asset_row i random_uuid mime input)
    pure (asset_row i random_uuid mime input)

pub record FileActor : Type 0 where
  pub user_id : Option Uuid
  pub is_staff_with_access : Bool

-- `actor.userId && file.uploadedByUserId === actor.userId`
abbrev pub is_owner : FileActor → FileAsset → Bool
is_owner actor file = elim actor.user_id [
  | none ↦ false
  | some user_id ↦ is_id file.uploaded_by_user_id user_id
]

abbrev pub is_allowed : FileActor → FileAsset → Bool
is_allowed actor file = elim file.visibility [
  | client ↦ is_owner actor file || actor.is_staff_with_access
  | internal_only ↦ actor.is_staff_with_access
  | private ↦ is_owner actor file || actor.is_staff_with_access
]

-- The signed address, which the presigner draws for 300 seconds, and the name for the download.
unfoldable pub get_signed_url_for_actor :
    {B : Type 0} → (String → ℕ → String) → Uuid → FileActor → Action (FileStore B) (String × String)
get_signed_url_for_actor sign i actor = do
  found ← gets (λ s. find? (λ (f : FileAsset). f.id == i) s.assets)
  file ← or_throw found (not_found "Fichier introuvable.")
  throw_if (not (is_allowed actor file)) (forbidden "Acces refuse a ce fichier.")
  pure (sign file.storage_key 300, file.original_file_name)
