-- ===== src/Config/Registry.antt =====
-- internal/config/registry.go: the services on the page and the checks of each.
use is_ntust_down.Prelude.{String, Bool, List, [], ◌∷◌, ◌++◌, map, if◌then◌else◌}

pub record Check : Type 0 where
  pub key : String
  pub name_id : String

pub record Service : Type 0 where
  pub key : String
  pub name_id : String
  pub desc_id : String
  pub checks : List Check

pub record RegistryOptions : Type 0 where
  pub include_mail_smtp : Bool

abbrev check : String → String → Check
check key name_id = record { key = key; name_id = name_id }

abbrev mail_service : RegistryOptions → Service
mail_service opts = record {
  key = "mail";
  name_id = "service.mail.name";
  desc_id = "service.mail.desc";
  checks =
      check "mail.site" "check.site"
      ∷ check "mail.login_page" "check.login_page"
      ∷ (if opts.include_mail_smtp then check "mail.smtp" "check.smtp" ∷ [] else []);
}

unfoldable pub registry : RegistryOptions → List Service
registry opts =
    record {
      key = "moodle";
      name_id = "service.moodle.name";
      desc_id = "service.moodle.desc";
      checks =
          check "moodle.site" "check.site"
          ∷ check "moodle.sso_page" "check.sso_page"
          ∷ check "moodle.sso_login" "check.sso_login"
          ∷ [];
    }
    ∷ record {
      key = "courseselection";
      name_id = "service.courseselection.name";
      desc_id = "service.courseselection.desc";
      checks =
          check "courseselection.site" "check.site"
          ∷ check "courseselection.sso_page" "check.sso_page"
          ∷ check "courseselection.sso_login" "check.sso_login"
          ∷ [];
    }
    ∷ mail_service opts
    ∷ record {
      key = "querycourse";
      name_id = "service.querycourse.name";
      desc_id = "service.querycourse.desc";
      checks = check "querycourse.api" "check.api" ∷ [];
    }
    ∷ record {
      key = "tigerduck-v3";
      name_id = "service.tigerduck_v3.name";
      desc_id = "service.tigerduck_v3.desc";
      checks = check "tigerduck.v3" "check.api" ∷ [];
    }
    ∷ []

unfoldable pub keys_of : List Service → List String
keys_of [] = []
keys_of (svc ∷ services) = map (λ c. c.key) svc.checks ++ keys_of services

unfoldable pub all_check_keys : RegistryOptions → List String
unfolding registry keys_of
all_check_keys opts = keys_of (registry opts)
