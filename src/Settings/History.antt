-- ===== src/Settings/History.antt =====
-- The history of the settings: `upsert` of
-- apps/api/src/modules/settings/repositories/settings.repository.ts.
use text.Mathlib.Text.{◌==◌ as str_eq}
use text.Mathlib.TextPositions.{eq_refl}
use savemycontrollers.Settings.{
  Setting, SettingData, SettingStore, find_by_key, written, new_setting, upsert,
}
use savemycontrollers.Prelude.{
  String, none, some, true, List, [], ◌∷◌, ◌++◌, ◌≡◌, refl, arith, update_where, inl, inr,
  Option-cases, Bool-cases,
}

find-append :
    (k : String) (rows : List Setting) (s : Setting)
    → find_by_key rows k ≡ none
    → str_eq s.key k ≡ true
    → find_by_key (rows ++ s ∷ []) k ≡ some s
find-append k [] s h e = rw e refl
find-append k (r ∷ rows) s h e = ground (arith, find-append k rows s)

find-updated :
    (k : String) (f : Setting → Setting)
    → ((r : Setting) → (f r).key ≡ r.key)
    → (rows : List Setting) (s : Setting) → find_by_key rows k ≡ some s
    → find_by_key (update_where (λ (r : Setting). str_eq r.key k) f rows) k ≡ some (f s)
find-updated k f keeps [] s h = absurd (ground arith)
find-updated k f keeps (r ∷ rows) s h = elim (Bool-cases (str_eq r.key k)) [
  | inl here ↦ ground (arith, keeps r)
  | inr other ↦ ground (arith, find-updated k f keeps rows s)
]

-- The setting that a write returns is the one that the table then has under the key.
pub find-upsert :
    (k : String) (d : SettingData) (s : SettingStore)
    → find_by_key (upsert k d s).1.settings k ≡ some (upsert k d s).0
unfolding upsert
find-upsert k d s = elim (Option-cases (find_by_key s.settings k)) [
  | inl fresh ↦ rw fresh (find-append k s.settings (new_setting k d) fresh (eq_refl k))
  | inr (old, e) ↦ rw e (find-updated k (written d) (λ r. refl) s.settings old e)
]
