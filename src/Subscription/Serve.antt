-- ===== src/Subscription/Serve.antt =====
-- The answer to a subscription's token: crates/pp-hub/src/routes/subscription/access.rs.
use Prim.Native.String.{◌++◌ as ◌<>◌}
use multi_proxy_panel.Prelude.{
  ℤ, pos, String, str_eq, ◌&&◌, ◌||◌, List, Option, none, some, ◌==◌, if◌then◌else◌, unwrap_or,
}
use multi_proxy_panel.Prelude.Text.{contains, to_string}
use multi_proxy_panel.Prelude.Text.Replace.{to_ascii_lowercase}
use multi_proxy_panel.Db.{
  Result, ok, err, Sql, pure, statement, select, attempt, utc_now, ◌>>=◌, ◌>>◌,
}
use multi_proxy_panel.Hub.{Uuid, Time, map_where}
use multi_proxy_panel.Settings.{first, and_then}
use multi_proxy_panel.ConfigGen.{Uuids}
use multi_proxy_panel.Subscription.{
  ProxyNode, Crates, SubscriptionFormat, base64, json, clash, sing_box_format, v2ray_ng,
  parse_format,
}
use multi_proxy_panel.Subscription.Generate.{generate_subscription}
use multi_proxy_panel.Subscription.Nodes.{Client, Subscription, Template, Tables, one}
use multi_proxy_panel.Subscription.Nodes.Remark.{Shown, int_text}
use multi_proxy_panel.Subscription.Nodes.Build.{build_proxy_nodes}

-- The answers other than a database error: the content with its type and the usage header, or an
-- `ApiError`.
pub data Answer : Type 0 where
  content : String → String → String → Answer
  not_found inactive invalid_format generation_failed : Answer

-- The query parameters and the User-Agent header.
pub record Request : Type 0 where
  pub format : Option String
  pub template : Option String
  pub user_agent : Option String

unfoldable pub detect_subscription_format : Option String → Option String → String
unfolding to_ascii_lowercase
detect_subscription_format (some format) user_agent = to_ascii_lowercase format
detect_subscription_format none user_agent =
    let ua = to_ascii_lowercase (unwrap_or user_agent "") in
    if contains ua "clash" || contains ua "mihomo"
    then "clash"
    else if contains ua "sing-box" || contains ua "singbox"
    then "sing-box"
    else if contains ua "v2rayng" || contains ua "v2ray"
    then "v2rayng"
    else "base64"

unfoldable pub first_template : String → Sql Tables (Option Template)
unfolding to_ascii_lowercase
first_template format = do
  ts ← select (λ t. t.templates) (λ t. str_eq t.format (to_ascii_lowercase format) && t.is_enabled)
  pure (first ts)

abbrev or_first : String → Option Template → Sql Tables (Option Template)
or_first format none = first_template format
or_first format (some t) = pure (some t)

-- The template of that name, or else the first of the format.
unfoldable pub find_template_for_format : String → Option String → Sql Tables (Option Template)
unfolding first_template
find_template_for_format format none = first_template format
find_template_for_format format (some name) = do
  named ← one (λ t. t.templates) (λ t. str_eq t.name name && t.is_enabled)
  or_first format named

-- Without a template, the format is Base64.
unfoldable pub fall_back :
    SubscriptionFormat
    → Option String
    → Option Template
    → Sql Tables (SubscriptionFormat × Option Template)
unfolding find_template_for_format
fall_back format name (some t) = pure (format, some t)
fall_back base64 name none = pure (base64, none)
fall_back _ name none = do t ← find_template_for_format "base64" name; pure (base64, t)

abbrev pub content_type : SubscriptionFormat → String
content_type json = "application/json"
content_type sing_box_format = "application/json"
content_type v2ray_ng = "application/json"
content_type clash = "application/x-yaml"
content_type base64 = "text/plain; charset=utf-8"

abbrev touch : Uuid → Time → Tables → Tables
touch id now t = record t {
  subscriptions =
      map_where (λ s. s.id == id) (λ s. record s { last_accessed_at = some now }) t.subscriptions;
}

-- A failure of the update is ignored.
unfoldable pub mark_accessed : Uuid → Sql Tables (Result (Unit {0}))
mark_accessed id = do now ← utc_now; attempt (statement λ t. (ok tt, touch id now t))

-- `timestamp` is chrono's.
module _ (k : Crates) (u : Uuids) (w : Shown) (timestamp : Time → ℤ) where
  abbrev expire_of : Option Time → ℤ
  expire_of none = pos 0
  expire_of (some t) = timestamp t

  unfoldable pub format_userinfo_header : Client → String
  unfolding to_string
  format_userinfo_header c =
      let upload = int_text c.traffic_used_bytes in
      let expire = expire_of c.expiry_date in
      "upload="
      <> (upload
          <> ("; download="
              <> (upload
                  <> ("; total="
                      <> (int_text c.traffic_limit_bytes <> ("; expire=" <> int_text expire))))))

  abbrev answered : SubscriptionFormat → Client → Result String → Answer
  answered format client (err e) = generation_failed
  answered format client (ok s) = content (content_type format) s (format_userinfo_header client)

  abbrev base_of : Option Template → Option String
  base_of t = and_then t (λ t. t.base_config)

  unfoldable pub serve_client :
      SubscriptionFormat → Option Template → Option Client → Sql Tables Answer
  unfolding build_proxy_nodes generate_subscription format_userinfo_header
  serve_client format template none = pure not_found
  serve_client format template (some client) = do
    nodes ← build_proxy_nodes u w client (and_then template (λ t. t.filter_rules))
    pure (answered format client (generate_subscription k format nodes (base_of template)))

  unfoldable pub serve_format :
      Subscription → Request → Option Template → Option SubscriptionFormat → Sql Tables Answer
  unfolding fall_back serve_client
  serve_format sub request template none = pure invalid_format
  serve_format sub request template (some format) = do
    chosen ← fall_back format request.template template
    client ← one (λ t. t.clients) (λ c. c.id == sub.client_id)
    serve_client chosen.0 chosen.1 client

  unfoldable pub serve_active : Subscription → Request → Sql Tables Answer
  unfolding mark_accessed detect_subscription_format find_template_for_format serve_format
      parse_format
  serve_active sub request = do
    mark_accessed sub.id
    (let format = detect_subscription_format request.format request.user_agent in
        (find_template_for_format format request.template >>= λ template.
        serve_format sub request template (parse_format format)))

  abbrev serve_found : Request → Option Subscription → Sql Tables Answer
  serve_found request none = pure not_found
  serve_found request (some sub) = if sub.is_active then serve_active sub request else pure inactive

  unfoldable pub serve_subscription : String → Request → Sql Tables Answer
  unfolding serve_active
  serve_subscription token request = do
    sub ← one (λ t. t.subscriptions) (λ s. str_eq s.token token)
    serve_found request sub

  -- What `render` makes of the content is the argument `svg`.
  module _ (svg : String → Option String) where
    abbrev drawn : Option String → Answer
    drawn none = generation_failed
    drawn (some s) = content "image/svg+xml" s ""

    abbrev drawn_from : Result String → Answer
    drawn_from (err e) = generation_failed
    drawn_from (ok s) = drawn (svg s)

    abbrev link_of_nodes : Option SubscriptionFormat → List ProxyNode → Answer
    link_of_nodes none nodes = invalid_format
    link_of_nodes (some format) nodes = drawn_from (generate_subscription k format nodes none)

    abbrev link_of_client : String → Option Client → Sql Tables Answer
    link_of_client format none = pure not_found
    link_of_client format (some client) = build_proxy_nodes u w client none >>= λ nodes.
        pure (link_of_nodes (parse_format format) nodes)

    abbrev link_of : String → Option Subscription → Sql Tables Answer
    link_of format none = pure not_found
    link_of format (some sub) =
        one (λ t. t.clients) (λ c. c.id == sub.client_id) >>= λ client. link_of_client format client

    -- build_subscription_link and the code made of it: the subscription is looked up again.
    unfoldable pub build_subscription_link : String → String → Sql Tables Answer
    unfolding build_proxy_nodes generate_subscription parse_format
    build_subscription_link token format = do
      sub ← one (λ t. t.subscriptions) (λ s. str_eq s.token token)
      link_of format sub

    abbrev qr_active : String → Option String → Subscription → Sql Tables Answer
    qr_active token format sub =
        mark_accessed sub.id >> build_subscription_link token (unwrap_or format "base64")

    abbrev qr_found : String → Option String → Option Subscription → Sql Tables Answer
    qr_found token format none = pure not_found
    qr_found token format (some sub) =
        if sub.is_active then qr_active token format sub else pure inactive

    unfoldable pub serve_subscription_qr : String → Option String → Sql Tables Answer
    unfolding build_subscription_link mark_accessed
    serve_subscription_qr token format = do
      sub ← one (λ t. t.subscriptions) (λ s. str_eq s.token token)
      qr_found token format sub
