-- ===== src/Protocol/Tests.antt =====
-- Runs of the readers of names.
use multi_proxy_panel.Prelude.{◌≡◌, ◌↔◌, refl, some, none}
use multi_proxy_panel.Protocol.{
  protocol_name, parse_protocol, anytls, parse_protocol_iff, to_bytes, kib, parse_core, sing_box,
}

parse_protocol_iff_example :
    (parse_protocol "anytls" ≡ some anytls) ↔ ("anytls" ≡ protocol_name anytls)
parse_protocol_iff_example = parse_protocol_iff "anytls" anytls

parse_core_run : (parse_core "singbox" ≡ some sing_box) × (parse_core "xray" ≡ none)
unfolding parse_core
parse_core_run = (refl, refl)

to_bytes_run : to_bytes kib 2 ≡ 2048
unfolding to_bytes
to_bytes_run = refl
