-- ===== src/Numbers/Normal.antt =====
-- That the numbers that are answered, in channels/whatsapp/numbers.py, are normalised and not empty.
use tempa.Base.{
  String, false, not, ◌||◌, Option, none, some, List, [], ◌∷◌, ◌==◌, ◌≡◌, refl, sym, ap, ◌∙◌, All,
  contains, Bool-cases, inl, inr, arith, eq_iff,
}
use tempa.Base.Text.{strip, keep}
use tempa.Numbers.Phone.{normalize_phone, phones_match, normalize_phone_idem}
use tempa.Numbers.Allowed.{
  Store, distinct, once, get_extra_allowed_whatsapp_numbers, get_owner_whatsapp_number,
  get_bridge_whatsapp_phone, get_allowed_whatsapp_reply_numbers, normalized,
}
use tempa.Numbers.Owner.{is_allowed}

-- In the form that `normalize_phone` gives.
abbrev IsNormal : String → Type 0
IsNormal phone = normalize_phone phone ≡ phone

-- The same, and a number at all.
abbrev pub IsNumber : String → Type 0
IsNumber phone = (normalize_phone phone ≡ phone) × ((phone == "") ≡ false)

empty-IsNormal : IsNormal ""
unfolding keep
empty-IsNormal = unfold normalize_phone in (unfold strip in refl)

normalized-IsNormal : (found : Option String) → IsNormal (normalized found)
normalized-IsNormal none = empty-IsNormal
normalized-IsNormal (some s) = normalize_phone_idem s

owner-IsNormal : (store : Store) → IsNormal (get_owner_whatsapp_number store)
unfolding get_owner_whatsapp_number
owner-IsNormal store = elim (Bool-cases (not (store.whatsapp_owner_number == ""))) [
  | inl set ↦ rw set (normalize_phone_idem store.whatsapp_owner_number)
  | inr unset ↦ rw unset (normalized-IsNormal _)
]

bridge-IsNormal : (store : Store) → IsNormal (get_bridge_whatsapp_phone store)
unfolding get_bridge_whatsapp_phone
bridge-IsNormal store = normalize_phone_idem _

distinct-IsNormal :
    (primary : String) (seen items : List String) → All IsNormal (distinct primary seen items)
unfolding distinct
distinct-IsNormal primary seen [] = tt
distinct-IsNormal primary seen (item ∷ items) =
    let phone = normalize_phone item in
    let same = distinct-IsNormal primary seen items in
    let more = distinct-IsNormal primary (phone ∷ seen) items in
    elim (Bool-cases (phone == "" || phone == primary || contains seen phone)) [
      | inl skip ↦ rw skip same
      | inr fresh ↦ rw fresh (normalize_phone_idem item, more)
    ]

once-IsNumber : (seen phones : List String) → All IsNormal phones → All IsNumber (once seen phones)
unfolding once
once-IsNumber seen [] h = tt
once-IsNumber seen (phone ∷ phones) h =
    let same = once-IsNumber seen phones h.1 in
    let more = once-IsNumber (phone ∷ seen) phones h.1 in
    elim (Bool-cases (phone == "" || contains seen phone)) [
      | inl skip ↦ rw skip same
      | inr fresh ↦ rw fresh ((h.0, ground arith), more)
    ]

pub allowed-IsNumber : (store : Store) → All IsNumber (get_allowed_whatsapp_reply_numbers store)
unfolding get_allowed_whatsapp_reply_numbers get_extra_allowed_whatsapp_numbers
allowed-IsNumber store =
    once-IsNumber [] _ (owner-IsNormal store, (bridge-IsNormal store, distinct-IsNormal _ [] _))

pub eq_swap : (a b : String) → (a == b) ≡ (b == a)
eq_swap a b = ground (arith, eq_iff a b, eq_iff b a)

phones_match-IsNumber :
    (number phone : String)
    → IsNumber phone
    → phones_match number phone ≡ (phone == normalize_phone number)
unfolding phones_match
phones_match-IsNumber number phone h = elim (Bool-cases (number == "")) [
  | inl empty ↦ rw empty (
      sym h.1
      ∙ ap (λ a. phone == a)
          (sym empty-IsNormal ∙ ap normalize_phone (sym ((eq_iff number "").0 empty))))
  | inr filled ↦ rw (filled, h.1, h.0) (eq_swap (normalize_phone number) phone)
]

pub is_allowed-contains :
    (number : String) (allowed : List String)
    → All IsNumber allowed
    → is_allowed allowed number ≡ contains allowed (normalize_phone number)
unfolding is_allowed
is_allowed-contains number [] h = refl
is_allowed-contains number (phone ∷ allowed) h =
    let rest = is_allowed-contains number allowed h.1 in
    rw (phones_match-IsNumber number phone h.0, rest)
