-- ===== src/Router/Access/Lookup.antt =====
-- What the lookups of an access list find.
use k.Base.{
  ℕ, zero, suc, ◌<◌, ◌≡◌, refl, ◌↔◌, ◌⊎◌, inl, inr, arith, ◌==◌, true, false, Option, none, some,
  List, [], ◌∷◌, Bool-cases,
}
use k.Shared.Constants.{max_reserves}
use k.Shared.Host.{Address}
use k.Router.Access.{contains, is_whitelisted, is_blacklisted, access_list, is_empty}

-- The member at position `i`.
unfoldable pub get_elem? : List Address → ℕ → Option Address
get_elem? [] i = none
get_elem? (a ∷ l) zero = some a
get_elem? (a ∷ l) (suc i) = get_elem? l i

-- `a` stands in the list before position `n`.
abbrev pub StandsBefore : ℕ → List Address → Address → Type 0
StandsBefore n l a = (i : ℕ) × (i < n) × (get_elem? l i ≡ some a)

contains-StandsBefore :
    (n : ℕ) (l : List Address) (a : Address) → contains n l a ≡ true → StandsBefore n l a
unfolding contains get_elem?
contains-StandsBefore zero l a h = absurd (cc)
contains-StandsBefore (suc n) [] a h = absurd (cc)
contains-StandsBefore (suc n) (b ∷ l) a h = elim (Bool-cases (b == a)) [
  | inl same ↦ (0, omega arith, ground arith)
  | inr other ↦
      let (i, before, there) = contains-StandsBefore n l a (ground arith) in
      (suc i, omega arith, there)
]

StandsBefore-contains :
    (n : ℕ) (l : List Address) (a : Address) (i : ℕ)
    → i < n
    → get_elem? l i ≡ some a
    → contains n l a ≡ true
unfolding contains get_elem?
StandsBefore-contains zero l a i h e = absurd (omega arith)
StandsBefore-contains (suc n) [] a i h e = absurd (cc)
StandsBefore-contains (suc n) (b ∷ l) a zero h e = ground arith
StandsBefore-contains (suc n) (b ∷ l) a (suc i) h e =
    let later = StandsBefore-contains n l a i (omega arith) e in ground arith

empty_iff : (n : ℕ) (l : List Address) (a : Address) → contains n l a ≡ true → is_empty l ≡ false
unfolding contains
empty_iff zero [] a h = cc
empty_iff (suc n) [] a h = cc
empty_iff n (b ∷ l) a h = refl

-- With a list that a setter has written, an address is blocked exactly when it stands among the
-- first 64 entries: one listed later is not blocked.
pub is_blacklisted_iff :
    (l : List Address) (a : Address)
    → (is_blacklisted (access_list l) a ≡ true) ↔ StandsBefore max_reserves l a
unfolding is_blacklisted access_list
is_blacklisted_iff l a = (
  λ h. contains-StandsBefore max_reserves l a (ground arith),
  λ (i, before, there).
      let found = StandsBefore-contains max_reserves l a i before there in
      let some_entry = empty_iff max_reserves l a found in ground arith,
)

-- With a list that a setter has written, an address may pass exactly when the list is empty or it
-- stands among the first 64 entries.
pub is_whitelisted_iff :
    (l : List Address) (a : Address)
    → (is_whitelisted (access_list l) a ≡ true) ↔ ((l ≡ []) ⊎ StandsBefore max_reserves l a)
unfolding is_whitelisted access_list
is_whitelisted_iff [] a = (λ h. inl refl, λ h. refl)
is_whitelisted_iff (b ∷ l) a = (
  λ h. inr (contains-StandsBefore max_reserves (b ∷ l) a h),
  λ h. elim h [
    | inl none_listed ↦ absurd (cc)
    | inr (i, before, there) ↦ StandsBefore-contains max_reserves (b ∷ l) a i before there
  ],
)
