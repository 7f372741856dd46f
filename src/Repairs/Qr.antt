-- ===== src/Repairs/Qr.antt =====
-- The QR tokens of the cases: `regenerateQrToken`, `revokeQrToken` and `getByQrToken` of
-- apps/api/src/modules/repairs/services/repair-case.service.ts.
use savemycontrollers.Identity.Sessions.{Hash}
use savemycontrollers.Repairs.Cases.{
  StaffActor, get_by_qr_token, regenerate_qr_token, revoke_qr_token, set_qr,
}
use savemycontrollers.Errors.{not_found}
use savemycontrollers.Repairs.Data.{RepairCase, RepairStore, find_by_qr_token_hash, find_case}
use savemycontrollers.Prelude.{
  ℕ, Uuid, Instant, false, none, some, List, [], ◌∷◌, ◌≡◌, ◌≤◌, refl, arith, ◌==◌, ok, err,
  count_where, update_where, inl, inr, Bool-cases,
}

-- The cases with a token's hash.
abbrev pub with_hash : Hash → List RepairCase → ℕ
with_hash h cases = count_where (λ (c : RepairCase). c.qr_token_hash == h) cases

abbrev revoked_at : Instant → Uuid → List RepairCase → List RepairCase
revoked_at now i cases =
    update_where (λ (c : RepairCase). c.id == i) (λ c. record c { qr_token_revoked_at = some now })
      cases

hash_gone :
    (i : Uuid) (h new : Hash) (now : Instant) (cases : List RepairCase)
    → with_hash h cases ≡ 0
    → (h == new) ≡ false
    → (find_by_qr_token_hash h (set_qr (λ t. t) i new cases) ≡ none)
      × (find_by_qr_token_hash h (revoked_at now i cases) ≡ none)
unfolding find_by_qr_token_hash
hash_gone i h new now [] e d = (refl, refl)
hash_gone i h new now (c ∷ cases) e d = ground (arith, hash_gone i h new now cases)

found-with_hash :
    (i : Uuid) (cases : List RepairCase) (c : RepairCase)
    → find_case i cases ≡ some c
    → 1 ≤ with_hash c.qr_token_hash cases
found-with_hash i [] c f = cc
found-with_hash i (b ∷ cases) c f = ground (arith, found-with_hash i cases c)

-- The first case with a token that is no longer another's.
token_moved :
    (i : Uuid) (h new : Hash) (now : Instant) (cases : List RepairCase) (c : RepairCase)
    → find_case i cases ≡ some c
    → c.qr_token_hash ≡ h
    → with_hash h cases ≤ 1
    → (h == new) ≡ false
    → (find_by_qr_token_hash h (set_qr (λ t. t) i new cases) ≡ none)
      × (find_by_qr_token_hash h (revoked_at now i cases) ≡ none)
unfolding find_by_qr_token_hash
token_moved i h new now [] c f e one d = cc
token_moved i h new now (b ∷ cases) c f e one d = elim (Bool-cases (b.id == i)) [
  | inl here ↦ ground (arith, hash_gone i h new now cases)
  | inr other ↦ elim (Bool-cases (b.qr_token_hash == h)) [
    | inl twice ↦ ground (arith, found-with_hash i cases c)
    | inr once ↦ ground (arith, token_moved i h new now cases c)
  ]
]

new_found :
    (i : Uuid) (new : Hash) (cases : List RepairCase) (c : RepairCase)
    → find_case i cases ≡ some c
    → with_hash new cases ≡ 0
    → find_by_qr_token_hash new (set_qr (λ t. t) i new cases)
      ≡ some (record c { qr_token_hash = new; qr_token_revoked_at = none })
unfolding find_by_qr_token_hash
new_found i new [] c f e = cc
new_found i new (b ∷ cases) c f e = ground (arith, new_found i new cases c)

module _ (hash_token : ℕ → Hash) where
  -- Where the hash of a case's token is no other case's, and the new token's hash is not in use: a new
  -- token leads to the case and the old one is refused, and once the case's token is revoked it is
  -- refused too.
  pub qr_token_replaced :
      (now : Instant) (i : Uuid) (old new : ℕ) (actor : StaffActor) (s : RepairStore)
      (c : RepairCase)
      → find_case i s.cases ≡ some c
      → c.qr_token_hash ≡ hash_token old
      → with_hash (hash_token old) s.cases ≤ 1
      → with_hash (hash_token new) s.cases ≡ 0
      → (hash_token old == hash_token new) ≡ false
      → let renewed = (regenerate_qr_token hash_token new i actor s).1 in
        let revoked = (revoke_qr_token now i actor s).1 in
        let refused = err (not_found "Dossier introuvable ou QR revoque.") in
        ((get_by_qr_token hash_token new renewed).0
          ≡ ok (record c { qr_token_hash = hash_token new; qr_token_revoked_at = none }))
        × ((get_by_qr_token hash_token old renewed).0 ≡ refused)
        × ((get_by_qr_token hash_token old revoked).0 ≡ refused)
  unfolding get_by_qr_token regenerate_qr_token revoke_qr_token
  qr_token_replaced now i old new actor s c found owned one free differ =
      let (moved, revoked) =
        token_moved i (hash_token old) (hash_token new) now s.cases c found owned one differ in
      (
        ground (arith, new_found i (hash_token new) s.cases c found free),
        ground (arith, moved),
        ground (arith, revoked),
      )
