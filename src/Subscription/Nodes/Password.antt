-- ===== src/Subscription/Nodes/Password.antt =====
-- The password in the outbound of a sing-box subscription.
use multi_proxy_panel.Prelude.{String, Option, none}
use multi_proxy_panel.Db.{Result, ok, err}
use multi_proxy_panel.Json.{Value, get_str}

abbrev password_of : Result Value → Option String
password_of (ok o) = get_str "password" o
password_of (err e) = none
