-- ===== src/Probe/Posted/Credentials.antt =====
-- What the credential form that a login probe of internal/probe fills in posts for each field.
use is_ntust_down.Prelude.{
  ℕ, max, ◌≤◌, ◌≡◌, refl, ap, ◌∙◌, true, false, Option, some, List, [], ◌∷◌, Text, any_by, count_by,
  same_text, same_text_iff, to_upper, trim_space, codes_key, arith, if◌then◌else◌,
}
use is_ntust_down.Store.Table.{Table, lookup, upsert, lookup-upsert}
use is_ntust_down.Probe.Form.{Form, Field, get, has, set, set_field, username, password}
use is_ntust_down.Probe.SsoForm.{
  fill_in, add_missing, captcha_fields, get-fill_in, has-fill_in-kept,
}
use is_ntust_down.Probe.Posted.{values, values_onto}

-- how many fields have a name
abbrev pub fields_named : Text → List Field → ℕ
fields_named name = count_by λ fl. same_text fl.name name

fields_named-none :
    (name : Text) (fields : List Field)
    → fields_named name fields ≡ 0
    → any_by (λ (fl : Field). same_text fl.name name) fields ≡ false
fields_named-none name [] h = refl
fields_named-none name (fl ∷ fields) h = ground (arith, fields_named-none name fields)

fields_named-one :
    (name : Text) (fields : List Field)
    → fields_named name fields ≡ 1
    → any_by (λ (fl : Field). same_text fl.name name) fields ≡ true
fields_named-one name [] h = ground arith
fields_named-one name (fl ∷ fields) h = ground (arith, fields_named-one name fields)

lookup-values_onto :
    (name : Text) (fields : List Field) (t : Table Text Text)
    → fields_named name fields ≤ 1
    → lookup name (values_onto t fields) ≡ (
        if any_by (λ (fl : Field). same_text fl.name name) fields
        then some (get fields name)
        else lookup name t)
unfolding values_onto get
lookup-values_onto name [] t h = refl
lookup-values_onto name (fl ∷ fields) t h = ground (
  arith,
  lookup-values_onto name fields (upsert fl.name (λ (_ : Option Text). fl.value) t),
  fields_named-none name fields,
  lookup-upsert name fl.name (λ (_ : Option Text). fl.value) t,
)

fields_named-set_field :
    (fields : List Field) (name other value : Text)
    → fields_named other (set_field fields name value) ≡ (
        if same_text name other
        then max (fields_named other fields) 1
        else fields_named other fields)
unfolding set_field
fields_named-set_field [] name other value = ground arith
fields_named-set_field (fl ∷ fields) name other value = ground (
  arith,
  fields_named-set_field fields name other value,
  same_text_iff fl.name name,
  same_text_iff fl.name other,
  same_text_iff name other,
)

set_field-once :
    (fields : List Field) (name other value : Text)
    → fields_named other fields ≤ 1
    → fields_named other (set_field fields name value) ≤ 1
set_field-once fields name other value h =
    ground (arith, fields_named-set_field fields name other value)

add_missing-once :
    (keys : List Text) (form : Form) (name : Text)
    → fields_named name form.fields ≤ 1
    → fields_named name (add_missing keys form).fields ≤ 1
unfolding add_missing
add_missing-once [] form name h = h
add_missing-once (k ∷ keys) form name h =
    add_missing-once keys (if has form k then form else set form k []) name
      (ground (arith, set_field-once form.fields k name []))

fill_in-once :
    (user pass name : Text) (form : Form)
    → fields_named name form.fields ≤ 1
    → fields_named name (fill_in user pass form).fields ≤ 1
unfolding fill_in
fill_in-once user pass name form h =
    let named = set form username (to_upper (trim_space user)) in
    add_missing-once captcha_fields (set named password pass) name (
      set_field-once named.fields password name pass
        (set_field-once form.fields username name (to_upper (trim_space user)) h))

-- For a field that the credential form has exactly once, the login posts the password if it is the
-- password's, the trimmed upper-case user name if it is the user name's, and otherwise the value that it
-- had, the hidden tokens among them.
pub values-fill_in :
    (user pass name : Text) (form : Form)
    → fields_named name form.fields ≡ 1
    → lookup name (values (fill_in user pass form).fields)
      ≡ some (
          if same_text password name
          then pass
          else if same_text username name
          then to_upper (trim_space user)
          else get form.fields name)
values-fill_in user pass name form h =
    let filled = fill_in user pass form in
    let there = fields_named-one name form.fields h in
    lookup-values_onto name filled.fields [] (fill_in-once user pass name form (omega (arith, h)))
    ∙ rw (has-fill_in-kept user pass name form there)
        (ap some (get-fill_in user pass name form there))
