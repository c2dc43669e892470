-- ===== src/Builder/SingBoxTls.antt =====
-- The TLS objects of sing-box inbounds: crates/pp-config/src/singbox.rs.
use Prim.Native.String.{◌++◌ as ◌<>◌}
use multi_proxy_panel.Prelude.{
  ℕ, String, true, not, ◌&&◌, List, [], ◌∷◌, Option, none, some, if◌then◌else◌, unwrap_or,
}
use multi_proxy_panel.Prelude.Text.{comma_list, is_empty, parse_u64, rsplit_once}
use multi_proxy_panel.Db.{validation}
use multi_proxy_panel.Json.{Value, boolean, number, text, get, as_str, get_str, str_or, json_object}
use multi_proxy_panel.Settings.{or_else, first_server_name, first_short_id}
use multi_proxy_panel.Builder.{Built, built, refused, texts_value}

-- `settings.get(a).as_str().or_else(|| settings.get(b).as_str())`
abbrev pub either_str : String → String → Value → Option String
either_str a b settings = or_else (get_str a settings) (get_str b settings)

-- The server and the port of the handshake.
abbrev pub dest_parts : String → Option (String × String) → String × ℕ
dest_parts dest none = (dest, 443)
dest_parts dest (some (host, port)) = (host, unwrap_or (parse_u64 port) 443)

abbrev ids_from : Option String → Option String → List String
ids_from (some id) raw = id ∷ []
ids_from none none = []
ids_from none (some s) = comma_list s

abbrev ids_value : List String → Value
ids_value [] = texts_value ("" ∷ [])
ids_value (id ∷ ids) = texts_value (id ∷ ids)

unfoldable pub reality_object : Value → String → String → Value
unfolding first_server_name first_short_id comma_list rsplit_once parse_u64
reality_object settings dest private_key =
    let (server, server_port) = dest_parts dest (rsplit_once b':' dest) in
    let short_ids =
      ids_from (first_short_id settings)
        (as_str (or_else (get "reality_short_id" settings) (get "short_id" settings))) in
    json_object (
      ("enabled", boolean true)
      ∷ ("server_name", text (unwrap_or (first_server_name settings) server))
      ∷ (
        "reality",
        json_object (
            ("enabled", boolean true)
            ∷ (
              "handshake",
              json_object (("server", text server) ∷ ("server_port", number server_port) ∷ []),
            )
            ∷ ("private_key", text private_key)
            ∷ ("short_id", ids_value short_ids)
            ∷ []),
      )
      ∷ [])

-- `?`, and `None` for an empty text.
abbrev pub reality_from : Value → Option String → Option String → Option Value
reality_from settings none key = none
reality_from settings (some dest) none = none
reality_from settings (some dest) (some key) =
    if is_empty dest
    then none
    else if is_empty key
    then none
    else some (reality_object settings dest key)

unfoldable pub build_singbox_reality_tls : Value → Option Value
unfolding reality_object get_str is_empty
build_singbox_reality_tls settings =
    reality_from settings (either_str "reality_dest" "dest" settings)
      (either_str "reality_private_key" "private_key" settings)

abbrev certificate : String → String → Value
certificate cert key =
    json_object
      (("enabled", boolean true) ∷ ("certificate_path", text cert) ∷ ("key_path", text key) ∷ [])

unfoldable pub build_singbox_server_tls : Option Value → Built Value
unfolding get_str is_empty
build_singbox_server_tls none = refused validation "TLS configuration is required"
build_singbox_server_tls (some tls) =
    let managed = str_or "managed_domain" "" tls in
    let cert_file = str_or "certFile" "" tls in
    let key_file = str_or "keyFile" "" tls in
    let domain = str_or "domain" "" tls in
    if not (is_empty managed)
    then built (certificate ("certs/" <> (managed <> ".crt")) ("certs/" <> (managed <> ".key")))
    else if not (is_empty cert_file) && not (is_empty key_file)
    then built (certificate cert_file key_file)
    else if not (is_empty domain)
    then built (
        json_object (
          ("enabled", boolean true)
          ∷ (
            "acme",
            json_object
                (("domain", texts_value (domain ∷ [])) ∷ ("data_directory", text "acme") ∷ []),
          )
          ∷ []))
    else refused validation "TLS requires certFile+keyFile or a domain for ACME"
