-- ===== src/Files/Tests.antt =====
-- A photo of a controller, through apps/api/src/modules/files/services/file.service.ts.
use Prim.Native.Char.{Char, code}
use savemycontrollers.Files.{
  client, FileAsset, FileStore, StoredObject, UploadInput, Environment, repair_case, FileActor,
  upload, get_signed_url_for_actor,
}
use savemycontrollers.Files.Names.{sanitize_display_file_name, all_display, sanitize-display}
use savemycontrollers.Files.Access.{MayRead, get_signed_url-MayRead}
use savemycontrollers.Prelude.{
  ℕ, String, Bool, true, false, none, some, [], ◌∷◌, ok, ◌≡◌, ◌≤◌, ◌<◌, ◌↔◌, ◌&&◌, ◌==◌, refl, leb,
  find?, utf16_length, count_where,
}

abbrev is_ascii_letter : Char → Bool
is_ascii_letter c = leb b'a' (code c) && leb (code c) b'z'

-- Buffers are their lengths here, and all hold JPEG pictures.
abbrev env : Environment ℕ
env = record {
  byte_length = λ b. b;
  detect_real_mime_type = λ b. some "image/jpeg";
  is_letter_or_number = is_ascii_letter;
  put_error = λ key. none;
  insert_error = λ i. none;
}

abbrev photo : UploadInput ℕ
photo = record {
  buffer = 2048;
  original_file_name = "../stick/drift.jpg";
  declared_mime_type = "image/jpeg";
  visibility = client;
  uploaded_by_user_id = some 7;
  related_entity_type = some repair_case;
  related_entity_id = some 3;
}

abbrev empty_store : FileStore ℕ
empty_store = record { objects = []; assets = [] }

-- A failing insert leaves the object in the bucket.
abbrev full_table : Environment ℕ
full_table = record env { insert_error = λ i. some "Disk full" }

orphan_kept :
    count_where
      (λ (o : StoredObject ℕ). true)
      (upload full_table 1 "u1" photo empty_store).1.objects
    ≡ 1
unfolding upload sanitize_display_file_name
orphan_kept = refl

photo_stored :
    (upload env 1 "u1" photo empty_store).0
    ≡ ok (record {
      id = 1;
      storage_key = "REPAIR_CASE/u1.jpg";
      original_file_name = ".._stick_drift.jpg";
      mime_type = "image/jpeg";
      size_bytes = 2048;
      visibility = client;
      uploaded_by_user_id = some 7;
      related_entity_type = some repair_case;
      related_entity_id = some 3;
    })
unfolding upload sanitize_display_file_name
photo_stored = refl

sanitize-display_run :
    (all_display is_ascii_letter (sanitize_display_file_name is_ascii_letter "../a") ≡ true)
    × (0 < utf16_length (sanitize_display_file_name is_ascii_letter "../a"))
    × (utf16_length (sanitize_display_file_name is_ascii_letter "../a") ≤ 180)
sanitize-display_run = sanitize-display is_ascii_letter "../a" refl

abbrev photo_row : FileAsset
photo_row = record {
  id = 1;
  storage_key = "REPAIR_CASE/u1.jpg";
  original_file_name = "drift.jpg";
  mime_type = "image/jpeg";
  size_bytes = 2048;
  visibility = client;
  uploaded_by_user_id = some 7;
  related_entity_type = some repair_case;
  related_entity_id = some 3;
}

abbrev one_file : FileStore ℕ
one_file = record { objects = []; assets = photo_row ∷ [] }

abbrev uploader : FileActor
uploader = record { user_id = some 7; is_staff_with_access = false }

get_signed_url-MayRead_example :
    ((get_signed_url_for_actor (λ key seconds. key) 1 uploader one_file).0
      ≡ ok ("REPAIR_CASE/u1.jpg", "drift.jpg"))
    ↔ ((file : FileAsset) × (find? (λ (f : FileAsset). f.id == 1) one_file.assets ≡ some file)
        × (◌≡◌ {A = String × String}
            (file.storage_key, file.original_file_name)
            ("REPAIR_CASE/u1.jpg", "drift.jpg"))
        × MayRead uploader file)
get_signed_url-MayRead_example =
    get_signed_url-MayRead (λ key seconds. key) 1 uploader one_file
      ("REPAIR_CASE/u1.jpg", "drift.jpg")
