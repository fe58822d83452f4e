-- ===== src/Numbers/RoundTrip.antt =====
-- That the allowed numbers read back as they were set: channels/whatsapp/numbers.py.
use tempa.Base.{
  String, ◌||◌, none, some, List, [], ◌∷◌, ◌==◌, ◌≡◌, refl, ap, ◌∙◌, contains, map, Bool-cases, inl,
  inr,
}
use tempa.Base.Text.{strip}
use tempa.Base.Value.{str, text}
use tempa.Numbers.Phone.{normalize_phone, normalize_phone_idem}
use tempa.Numbers.Allowed.{
  Store, parsed, listed, distinct, get_extra_allowed_whatsapp_numbers,
  set_extra_allowed_whatsapp_numbers, get_owner_whatsapp_number, raw_numbers,
}

distinct_idem :
    (primary : String) (seen items : List String)
    → distinct primary seen (distinct primary seen items) ≡ distinct primary seen items
unfolding distinct
distinct_idem primary seen [] = refl
distinct_idem primary seen (item ∷ items) =
    let phone = normalize_phone item in
    let same = distinct_idem primary seen items in
    let more = distinct_idem primary (phone ∷ seen) items in
    elim (Bool-cases (phone == "" || phone == primary || contains seen phone)) [
      | inl skip ↦ rw skip same
      | inr fresh ↦
          rw fresh (rw (normalize_phone_idem item, fresh) (ap (λ rest. phone ∷ rest) more))
    ]

str-text : (items : List String) → map str (map text items) ≡ items
unfolding str
str-text [] = refl
str-text (item ∷ items) = ap (λ rest. item ∷ rest) (str-text items)

raw_numbers-listed :
    (items : List String)
    → raw_numbers (some (parsed (some (listed (map text items))) none)) ≡ map text items
raw_numbers-listed [] = refl
raw_numbers-listed (item ∷ items) = refl

pub get_owner-set_extra :
    (numbers : List String) (store : Store)
    → get_owner_whatsapp_number (set_extra_allowed_whatsapp_numbers numbers store).1
      ≡ get_owner_whatsapp_number store
unfolding set_extra_allowed_whatsapp_numbers get_owner_whatsapp_number
get_owner-set_extra numbers store = refl

-- Whatever the files held: the numbers that a later read gives are those that setting them returned.
pub get_extra-set_extra :
    (numbers : List String) (store : Store)
    → get_extra_allowed_whatsapp_numbers (set_extra_allowed_whatsapp_numbers numbers store).1
      ≡ (set_extra_allowed_whatsapp_numbers numbers store).0
unfolding get_extra_allowed_whatsapp_numbers set_extra_allowed_whatsapp_numbers
get_extra-set_extra numbers store =
    let primary = get_owner_whatsapp_number store in
    let new = distinct primary [] (map strip numbers) in
    ap
      (λ p.
        distinct p [] (
          map str (raw_numbers (set_extra_allowed_whatsapp_numbers numbers store).1.allowed_extra)))
      (get_owner-set_extra numbers store)
    ∙ ap (λ vs. distinct primary [] (map str vs)) (raw_numbers-listed new)
    ∙ ap (distinct primary []) (str-text new)
    ∙ distinct_idem primary [] (map strip numbers)
