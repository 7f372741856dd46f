-- ===== src/Files/Access.antt =====
-- Who gets a signed address: `getSignedUrlForActor` of
-- apps/api/src/modules/files/services/file.service.ts.
use savemycontrollers.Files.{
  FileVisibility, private, client, internal_only, FileAsset, FileStore, FileActor, is_owner,
  is_allowed, get_signed_url_for_actor,
}
use savemycontrollers.Prelude.{
  ℕ, String, Uuid, true, some, ok, ◌≡◌, ◌≢◌, inl, inr, refl, arith, ◌==◌, ◌||◌, ◌↔◌, ap, find?,
  Bool-cases, Option-cases, ==_refl,
}

-- Staff with access may read every file; a client reads what he uploaded, unless it is internal.
pub data MayRead (actor : FileActor) (file : FileAsset) : Type 0 where
  staff : actor.is_staff_with_access ≡ true → MayRead actor file
  owner :
      (user_id : Uuid)
      → actor.user_id ≡ some user_id
      → file.uploaded_by_user_id ≡ some user_id
      → file.visibility ≢ internal_only
      → MayRead actor file

is_owner-owner :
    (actor : FileActor) (file : FileAsset)
    → is_owner actor file ≡ true
    → (user_id : Uuid) × (actor.user_id ≡ some user_id) × (file.uploaded_by_user_id ≡ some user_id)
is_owner-owner actor file h = elim (Option-cases actor.user_id) [
  | inl anonymous ↦ absurd (ground arith)
  | inr (user_id, e) ↦ elim (Option-cases file.uploaded_by_user_id) [
    | inl nobody ↦ absurd (ground arith)
    | inr (uploader, f) ↦ (user_id, e, ground arith)
  ]
]

owner-is_owner :
    (actor : FileActor) (file : FileAsset) (user_id : Uuid)
    → actor.user_id ≡ some user_id
    → file.uploaded_by_user_id ≡ some user_id
    → is_owner actor file ≡ true
owner-is_owner actor file user_id e f = rw (e, f) (==_refl user_id)

read_as_owner :
    (actor : FileActor) (file : FileAsset)
    → file.visibility ≢ internal_only
    → (is_owner actor file || actor.is_staff_with_access) ≡ true
    → MayRead actor file
read_as_owner actor file seen h = elim (Bool-cases actor.is_staff_with_access) [
  | inl s ↦ staff s
  | inr customer ↦
      let (user_id, e, f) = is_owner-owner actor file (ground arith) in owner user_id e f seen
]

is_allowed-MayRead :
    (actor : FileActor) (file : FileAsset) → is_allowed actor file ≡ true → MayRead actor file
is_allowed-MayRead actor file h = go file.visibility refl
  where
    go : (v : FileVisibility) → file.visibility ≡ v → MayRead actor file
    go private e = read_as_owner actor file (λ f. cc) (ground arith)
    go client e = read_as_owner actor file (λ f. cc) (ground arith)
    go internal_only e = staff (ground arith)

MayRead-is_allowed :
    (actor : FileActor) (file : FileAsset) → MayRead actor file → is_allowed actor file ≡ true
MayRead-is_allowed actor file m = go file.visibility refl m
  where
    go :
        (v : FileVisibility)
        → file.visibility ≡ v
        → MayRead actor file
        → is_allowed actor file ≡ true
    go private e (staff s) = ground arith
    go private e (owner u f g seen) = ground (arith, owner-is_owner actor file u)
    go client e (staff s) = ground arith
    go client e (owner u f g seen) = ground (arith, owner-is_owner actor file u)
    go internal_only e (staff s) = ground arith
    go internal_only e (owner u f g seen) = absurd (seen e)

-- A signed address is given exactly where the file exists and the actor may read it: staff with
-- access, or the user who uploaded it and only where the file is not internal. The address is that
-- of this file, for 300 seconds.
pub get_signed_url-MayRead :
    {B : Type 0} (sign : String → ℕ → String) (i : Uuid) (actor : FileActor) (s : FileStore B)
    (url : String × String)
    → ((get_signed_url_for_actor sign i actor s).0 ≡ ok url) ↔ (
        (file : FileAsset) × (find? (λ (f : FileAsset). f.id == i) s.assets ≡ some file)
        × ((sign file.storage_key 300, file.original_file_name) ≡ url)
        × MayRead actor file)
unfolding get_signed_url_for_actor
get_signed_url-MayRead sign i actor s url = (granted, given)
  where
    granted :
        (get_signed_url_for_actor sign i actor s).0 ≡ ok url
        → (file : FileAsset) × (find? (λ (f : FileAsset). f.id == i) s.assets ≡ some file)
          × ((sign file.storage_key 300, file.original_file_name) ≡ url)
          × MayRead actor file
    granted h = elim (Option-cases (find? (λ (f : FileAsset). f.id == i) s.assets)) [
      | inl missing ↦ absurd (ground arith)
      | inr (file, e) ↦ elim (Bool-cases (is_allowed actor file)) [
        | inl allowed ↦ (file, e, ground arith, is_allowed-MayRead actor file allowed)
        | inr refused ↦ absurd (ground arith)
      ]
    ]

    given :
        (file : FileAsset) × (find? (λ (f : FileAsset). f.id == i) s.assets ≡ some file)
          × ((sign file.storage_key 300, file.original_file_name) ≡ url)
          × MayRead actor file
        → (get_signed_url_for_actor sign i actor s).0 ≡ ok url
    given (file, e, u, m) = rw (e, MayRead-is_allowed actor file m) (ap ok u)
