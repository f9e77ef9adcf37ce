-- ===== src/Probe/SsoForm.antt =====
-- Filling in and submitting the credential form: submitLogin of internal/probe/moodle.go, and the
-- same lines of the course selection login in internal/probe/courseselection.go.
use is_ntust_down.Prelude.{
  true, none, some, List, [], ◌∷◌, ◌++◌, Text, codes, trim_space, to_upper, same_text,
  if◌then◌else◌, same_text_refl, same_text_iff, arith, ◌≡◌, refl, ap, ◌∙◌, ◌||◌, any_by,
}
use is_ntust_down.Probe.Form.{Form, Field, get, has, set, set_field, username, password}
use is_ntust_down.Probe.Session.{Url, Page, other_failure, Reply, failed, Sent, post, Remote}

abbrev pub captcha_fields : List Text
captcha_fields =
    codes "captcha"
    ∷ codes "cf-turnstile-response"
    ∷ codes "h-captcha-response"
    ∷ codes "g-recaptcha-response"
    ∷ []

-- the loop over the captcha fields
unfoldable pub add_missing : List Text → Form → Form
add_missing [] form = form
add_missing (k ∷ keys) form = add_missing keys (if has form k then form else set form k [])

unfoldable pub fill_in : Text → Text → Form → Form
unfolding add_missing
fill_in user pass form =
    add_missing captcha_fields (set (set form username (to_upper (trim_space user))) password pass)

abbrev pub https_origin : Url → Text
https_origin u = codes "https://" ++ u.host

-- The reply, and what has been sent.
unfoldable pub submit_login : Remote → Text → Text → Page → Form → List Sent → Reply × List Sent
submit_login net user pass p form sent = elim (net.resolve p.url form.action) [
  | none ↦ (failed other_failure, sent)
  | some target ↦
      let sent' = post target (fill_in user pass form) p.url.text (https_origin p.url) ∷ sent in
      (net.respond sent', sent')
]

get-set_field :
    (fields : List Field) (name other value : Text)
    → get (set_field fields name value) other
      ≡ (if same_text name other then value else get fields other)
unfolding get set_field
get-set_field [] name other value = refl
get-set_field (fl ∷ fields) name other value = ground (
  arith,
  get-set_field fields name other value,
  same_text_iff fl.name name,
  same_text_iff fl.name other,
  same_text_iff name other,
)

-- `Set` leaves a field of its name, and keeps those of other names.
has-set_field :
    (fields : List Field) (name other value : Text)
    → any_by (λ (fl : Field). same_text fl.name other) (set_field fields name value)
      ≡ same_text name other || any_by (λ (fl : Field). same_text fl.name other) fields
unfolding set_field
has-set_field [] name other value = refl
has-set_field (fl ∷ fields) name other value = ground (
  arith,
  has-set_field fields name other value,
  same_text_iff fl.name name,
  same_text_iff fl.name other,
  same_text_iff name other,
)

has-add_missing :
    (keys : List Text) (form : Form) (name : Text)
    → has form name ≡ true
    → has (add_missing keys form) name ≡ true
unfolding add_missing
has-add_missing [] form name h = h
has-add_missing (k ∷ keys) form name h =
    has-add_missing keys (if has form k then form else set form k []) name
      (ground (arith, has-set_field form.fields k name []))

-- The submitted form carries the password field.
pub has-fill_in : (user pass : Text) (form : Form) → has (fill_in user pass form) password ≡ true
unfolding fill_in
has-fill_in user pass form = has-add_missing captcha_fields _ password (
    rw
      (has-set_field (set form username (to_upper (trim_space user))).fields password password pass)
      (rw same_text_refl refl))

get-add_one :
    (k : Text) (form : Form) (name : Text)
    → has form name ≡ true
    → get (if has form k then form else set form k []).fields name ≡ get form.fields name
get-add_one k form name h =
    ground (arith, get-set_field form.fields k name [], same_text_iff k name, ap (has form))

get-add_missing :
    (keys : List Text) (form : Form) (name : Text)
    → has form name ≡ true
    → get (add_missing keys form).fields name ≡ get form.fields name
unfolding add_missing
get-add_missing [] form name h = refl
get-add_missing (k ∷ keys) form name h =
    get-add_missing keys (if has form k then form else set form k []) name
      (ground (arith, has-set_field form.fields k name []))
    ∙ get-add_one k form name h

-- Filling in the form keeps every field that was there.
pub has-fill_in-kept :
    (user pass name : Text) (form : Form)
    → has form name ≡ true
    → has (fill_in user pass form) name ≡ true
unfolding fill_in
has-fill_in-kept user pass name form h =
    let named = set form username (to_upper (trim_space user)) in
    has-add_missing captcha_fields (set named password pass) name (
      rw (has-set_field named.fields password name pass) (
        rw (has-set_field form.fields username name (to_upper (trim_space user)))
          (ground (arith, h))))

-- Filling in the form writes the trimmed upper-case user name and the password and keeps every other
-- field that was there, the hidden tokens among them.
pub get-fill_in :
    (user pass name : Text) (form : Form)
    → has form name ≡ true
    → get (fill_in user pass form).fields name ≡ (
        if same_text password name
        then pass
        else if same_text username name
        then to_upper (trim_space user)
        else get form.fields name)
unfolding fill_in
get-fill_in user pass name form h =
    let named = set form username (to_upper (trim_space user)) in
    get-add_missing captcha_fields (set named password pass) name (
      rw (has-set_field named.fields password name pass) (
        rw (has-set_field form.fields username name (to_upper (trim_space user)))
          (ground (arith, h))))
    ∙ (get-set_field named.fields password name pass
        ∙ ap (λ (v : Text). if same_text password name then pass else v)
            (get-set_field form.fields username name (to_upper (trim_space user))))
