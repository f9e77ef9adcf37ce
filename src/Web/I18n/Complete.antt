-- ===== src/Web/I18n/Complete.antt =====
-- The messages that the registry refers to, in the catalogues of internal/web/i18n.
use is_ntust_down.Prelude.{
  ◌≡◌, refl, String, Bool, true, false, none, some, List, [], ◌∷◌, ◌++◌, map, any_by, text_key,
}
use is_ntust_down.Store.Table.{lookup}
use is_ntust_down.Config.Registry.{Service, RegistryOptions, registry}
use is_ntust_down.Web.I18n.{Lang, zh_tw, en, Catalog, catalog_for}
use is_ntust_down.Web.I18n.En.{en_us}
use is_ntust_down.Web.I18n.Zh.{zh_tw_catalog}

-- the ids of the names and the descriptions
abbrev pub message_ids : List Service → List String
message_ids [] = []
message_ids (svc ∷ services) =
    svc.name_id ∷ svc.desc_id ∷ (map (λ c. c.name_id) svc.checks ++ message_ids services)

abbrev pub is_missing : Catalog → String → Bool
is_missing catalog id = elim (lookup id catalog) [ none ↦ true | some text ↦ false ]

registry_named :
    (include : Bool) (l : Lang)
    → any_by
        (is_missing (catalog_for l))
        (message_ids (registry (record { include_mail_smtp = include })))
      ≡ false
unfolding registry en_us zh_tw_catalog lookup
registry_named false zh_tw = refl
registry_named true zh_tw = refl
registry_named false en = refl
registry_named true en = refl

-- Whether or not the mail servers are checked, the catalogue of each language has a message for the
-- name and the description of every service and for the name of every check of the registry.
registry-messages :
    (opts : RegistryOptions) (l : Lang)
    → any_by (is_missing (catalog_for l)) (message_ids (registry opts)) ≡ false
registry-messages opts l = registry_named opts.include_mail_smtp l
