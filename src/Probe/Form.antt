-- ===== src/Probe/Form.antt =====
-- internal/probe/html.go: the forms of a page, and which of them is the credential form or an
-- auto-submitting bridge. The HTML parser (golang.org/x/net/html) is a parameter; its tree is `Node`.
use is_ntust_down.Prelude.{
  Bool, true, false, Option, none, some, List, [], ◌∷◌, ◌++◌, ◌&&◌, ◌||◌, not, is_empty, any_by,
  Text, codes, same_text, to_lower, equal_fold, contains, if◌then◌else◌, ◌≡◌, ap, arith,
}

pub record Attribute : Type 0 where
  pub key : Text
  pub val : Text

-- html.Node: an element with its tag, or any other node; the children of either
mutual
  pub data Node : Type 0 where
    element : Text → List Attribute → Nodes → Node
    other : Nodes → Node

  pub data Nodes : Type 0 where
    nil : Nodes
    cons : Node → Nodes → Nodes

pub record Field : Type 0 where
  pub name : Text
  pub value : Text

pub record Form : Type 0 where
  pub id : Text
  pub action : Text
  pub fields : List Field

unfoldable pub get : List Field → Text → Text
get [] name = []
get (fl ∷ fields) name = if same_text fl.name name then fl.value else get fields name

abbrev pub has : Form → Text → Bool
has f name = any_by (λ fl. same_text fl.name name) f.fields

-- `Set` on the fields: the first of this name, or a new one at the end
unfoldable pub set_field : List Field → Text → Text → List Field
set_field [] name value = record { name = name; value = value } ∷ []
set_field (fl ∷ fields) name value =
    if same_text fl.name name
    then record fl { value = value } ∷ fields
    else fl ∷ set_field fields name value

abbrev pub set : Form → Text → Text → Form
set f name value = record f { fields = set_field f.fields name value }

unfoldable pub attr : List Attribute → Text → Text
attr [] key = []
attr (a ∷ rest) key = if equal_fold a.key key then a.val else attr rest key

-- `collect`: the named inputs at and below a node, in document order
abbrev input_of : Text → List Attribute → List Field
input_of tag attrs =
    let name = attr attrs (codes "name") in
    if same_text tag (codes "input") && not (is_empty name)
    then record { name = name; value = attr attrs (codes "value") } ∷ []
    else []

unfoldable mutual
  pub collect : Node → List Field
  collect (element tag attrs children) = input_of tag attrs ++ collect_all children
  collect (other children) = collect_all children

  pub collect_all : Nodes → List Field
  collect_all nil = []
  collect_all (cons n ns) = collect n ++ collect_all ns

abbrev form_of : Text → List Attribute → Nodes → Form
form_of tag attrs children = record {
  id = attr attrs (codes "id");
  action = attr attrs (codes "action");
  fields = collect (element tag attrs children);
}

-- `walk`: the forms in document order, none inside another
unfoldable mutual
  pub walk : Node → List Form
  walk (element tag attrs children) =
      let below = walk_all children in
      if same_text tag (codes "form") then form_of tag attrs children ∷ [] else below
  walk (other children) = walk_all children

  pub walk_all : Nodes → List Form
  walk_all nil = []
  walk_all (cons n ns) = walk n ++ walk_all ns

-- ParseForms, of a body that the parser has read or refused
unfoldable pub parse_forms : (Text → Option Node) → Text → List Form
parse_forms parse body = elim (parse body) [ none ↦ [] | some doc ↦ walk doc ]

abbrev first_form : (Form → Bool) → List Form → Option Form
first_form p [] = none
first_form p (f ∷ forms) = if p f then some f else first_form p forms

abbrev pub username : Text
username = codes "Username"

abbrev pub password : Text
password = codes "Password"

abbrev or_else : Option Form → Option Form → Option Form
or_else none o = o
or_else (some f) o = some f

unfoldable pub find_login_form : List Form → Option Form
find_login_form forms =
    or_else (first_form (λ f. equal_fold f.id (codes "loginForm")) forms)
      (first_form (λ f. has f username && has f password) forms)

-- the test that FindOIDCBridge makes of each form
abbrev pub is_bridge : Form → Bool
is_bridge f =
    not (is_empty f.action || contains (to_lower f.action) (codes "logout"))
    && not (is_empty f.fields || has f username || has f password)
    && (has f (codes "code") && has f (codes "state") && has f (codes "iss")
        || has f (codes "id_token")
        || has f (codes "SAMLResponse"))

unfoldable pub find_oidc_bridge : List Form → Option Form
find_oidc_bridge = first_form is_bridge

first_form-holds :
    (p : Form → Bool) (forms : List Form) (f : Form) → first_form p forms ≡ some f → p f ≡ true
first_form-holds p [] f h = cc
first_form-holds p (g ∷ forms) f h = ground (arith, first_form-holds p forms f, ap p)

clears : (a b c d e : Bool) → (a && not (b || c || d) && e) ≡ true → (c ≡ false) × (d ≡ false)
clears a b c d e h = ground arith

-- A bridge carries no credentials.
pub find_oidc_bridge-no_credentials :
    (forms : List Form) (f : Form)
    → find_oidc_bridge forms ≡ some f
    → (has f username ≡ false) × (has f password ≡ false)
unfolding find_oidc_bridge
find_oidc_bridge-no_credentials forms f h = clears _ _ _ _ _ (first_form-holds is_bridge forms f h)
