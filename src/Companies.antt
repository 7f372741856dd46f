-- ===== src/Companies.antt =====
-- apps/api/src/modules/organizations/services/company.service.ts and its repository: who may act for
-- a company.
use savemycontrollers.Errors.{forbidden}
use savemycontrollers.Outbox.{
  OutboxEvent, company_application_submitted, company, company_payload, append_event,
}
use savemycontrollers.Prelude.{
  String, Uuid, Instant, Bool, true, false, Option, none, some, List, [], ◌∷◌, ◌++◌, ◌&&◌, ◌==◌,
  find?, update_where, Result, ok, err,
}

pub data CompanyStatus : Type 0 where
  pending approved rejected suspended : CompanyStatus

pub data InternalRole : Type 0 where
  owner manager buyer : InternalRole

pub record Company : Type 0 where
  pub id : Uuid
  pub name : String
  pub status : CompanyStatus

pub record CompanyMember : Type 0 where
  pub company_id : Uuid
  pub user_id : Uuid
  pub internal_role : InternalRole

abbrev pub is_approved : CompanyStatus → Bool
is_approved approved = true
is_approved pending = false
is_approved rejected = false
is_approved suspended = false

pub record CompanyTables : Type 0 where
  pub companies : List Company
  pub members : List CompanyMember

abbrev pub find_company : CompanyTables → Uuid → Option Company
find_company t i = find? (λ (c : Company). c.id == i) t.companies

abbrev pub is_member : CompanyTables → Uuid → Uuid → Option CompanyMember
is_member t firm user =
    find? (λ (m : CompanyMember). m.company_id == firm && m.user_id == user) t.members

unfoldable pub approve : Uuid → CompanyTables → CompanyTables
approve i t = record t {
  companies =
      update_where (λ (c : Company). c.id == i) (λ c. record c { status = approved }) t.companies;
}

unfoldable pub reject : Uuid → CompanyTables → CompanyTables
reject i t = record t {
  companies =
      update_where (λ (c : Company). c.id == i) (λ c. record c { status = rejected }) t.companies;
}

unfoldable pub assert_member : CompanyTables → Uuid → Uuid → Result (Unit {0})
assert_member t firm user = elim (is_member t firm user) [
  | none ↦ err (forbidden "Vous n'appartenez pas a cette entreprise.")
  | some m ↦ ok tt
]

abbrev membership_of : Option CompanyMember → Result CompanyMember
membership_of none = err (forbidden "Vous n'appartenez pas a cette entreprise.")
membership_of (some m) = ok m

-- An approved company of which the user is a member.
unfoldable pub assert_active_approved_member : CompanyTables → Uuid → Uuid → Result CompanyMember
assert_active_approved_member t firm user = elim (find_company t firm) [
  | none ↦ err (forbidden "Cette entreprise n'est pas approuvee.")
  | some c ↦ elim (is_approved c.status) [
    | false ↦ err (forbidden "Cette entreprise n'est pas approuvee.")
    | true ↦ membership_of (is_member t firm user)
  ]
]

-- One transaction: the company, its owner, and the event.
unfoldable pub submit_application :
    Uuid
    → Uuid
    → Instant
    → String
    → Uuid
    → Uuid
    → CompanyTables × List OutboxEvent
    → CompanyTables × List OutboxEvent
submit_application i event_id now name owner_user correlation (t, outbox) = (
  record {
    companies = t.companies ++ record { id = i; name = name; status = pending } ∷ [];
    members =
        t.members ++ record { company_id = i; user_id = owner_user; internal_role = owner } ∷ [];
  },
  append_event event_id now
      (record {
        event_type = company_application_submitted;
        aggregate_type = company;
        aggregate_id = i;
        payload = company_payload name;
        correlation_id = correlation;
      })
      false outbox,
)
