-- ===== src/Export/Clash/Reading.antt =====
-- What the kinds add keeps the entries that every proxy has.
use easysub.Prelude.{
  ◌≡◌, refl, Bool, true, not, List, is_empty, inl, inr, head?, filter, Option-cases, ◌&&◌,
}
use easysub.Text.{Str, codes, str_eq}
use easysub.Json.{Fields, unsigned}
use easysub.Model.{
  ProxyKind, shadowsocks, vmess, vless, trojan, http, https, socks5, snell, wireguard, tuic, anytls,
  hysteria2, Proxy,
}
use easysub.Export.Clash.Fields.{
  transport_options, reality_fields, add_tls, add_transport, add_native_tls,
}
use easysub.Export.Clash.Proxies.{
  shadowsocks_entries, vmess_entries, vless_entries, trojan_entries, tuic_entries, anytls_entries,
  hysteria2_entries, login_entries, snell_entries, insert_address, is_ipv6, wireguard_entries,
  kind_entries,
}
use easysub.Export.Clash.Keeps.{
  is_special, Keeps, Keeps-refl, Keeps-insert, Keeps-remove, Keeps-if, Keeps-text, Keeps-nonempty,
  Keeps-option, Keeps-flag, Keeps-list,
}

transport_options-Keeps : (p : Proxy) (x y : Fields) → Keeps x y → Keeps x (transport_options p y)
unfolding transport_options
transport_options-Keeps p x y h =
    Keeps-if (str_eq p.network (codes "ws")) x _ _ (Keeps-insert _ _ x _ refl h) (
      Keeps-if (str_eq p.network (codes "http")) x _ _ (Keeps-insert _ _ x _ refl h) (
        Keeps-if (str_eq p.network (codes "grpc")) x _ _ (Keeps-insert _ _ x _ refl h)
          (Keeps-if (str_eq p.network (codes "h2")) x _ _ (Keeps-insert _ _ x _ refl h) h)))

reality_fields-Keeps : (p : Proxy) (x y : Fields) → Keeps x y → Keeps x (reality_fields p y)
unfolding reality_fields
reality_fields-Keeps p x y h =
    Keeps-if (is_empty p.public_key) x y _ h (Keeps-insert _ _ x _ refl h)

add_tls-Keeps : (p : Proxy) (x y : Fields) → Keeps x y → Keeps x (add_tls p y)
unfolding add_tls
add_tls-Keeps p x y h = Keeps-list _ _ x _ refl (
    reality_fields-Keeps p x _
      (Keeps-flag _ _ x _ refl (Keeps-nonempty _ _ x _ refl (Keeps-nonempty _ _ x _ refl h))))

add_transport-Keeps : (p : Proxy) (x y : Fields) → Keeps x y → Keeps x (add_transport p y)
unfolding add_transport
add_transport-Keeps p x y h =
    let carried =
      transport_options-Keeps p x _ (Keeps-nonempty (codes "network") p.network x y refl h) in
    Keeps-if p.tls x _ _ (add_tls-Keeps p x _ (Keeps-insert _ _ x _ refl carried)) carried

add_native_tls-Keeps : (p : Proxy) (x y : Fields) → Keeps x y → Keeps x (add_native_tls p y)
unfolding add_native_tls
add_native_tls-Keeps p x y h =
    Keeps-list _ _ x _ refl
      (Keeps-flag _ _ x _ refl (Keeps-nonempty _ _ x _ refl (Keeps-nonempty _ _ x _ refl (h))))

shadowsocks_kept : (p : Proxy) (x : Fields) → Keeps x (shadowsocks_entries p x)
unfolding shadowsocks_entries
shadowsocks_kept p x =
    Keeps-nonempty _ _ x _ refl (
      Keeps-nonempty _ _ x _ refl
        (Keeps-text _ _ x _ refl (Keeps-text _ _ x _ refl (Keeps-refl x))))

vmess_kept : (p : Proxy) (x : Fields) → Keeps x (vmess_entries p x)
unfolding vmess_entries
vmess_kept p x =
    add_transport-Keeps p x _
      (Keeps-text _ _ x _ refl (Keeps-insert _ _ x _ refl (Keeps-text _ _ x _ refl (Keeps-refl x))))

vless_kept : (p : Proxy) (x : Fields) → Keeps x (vless_entries p x)
unfolding vless_entries
vless_kept p x =
    add_transport-Keeps p x _ (Keeps-nonempty _ _ x _ refl (Keeps-text _ _ x _ refl (Keeps-refl x)))

trojan_kept : (p : Proxy) (x : Fields) → Keeps x (trojan_entries p x)
unfolding trojan_entries
trojan_kept p x =
    let plain = Keeps-remove _ x _ refl (
      Keeps-remove _ x _ refl (
        add_transport-Keeps p x _
          (Keeps-text (codes "password") p.password x x refl (Keeps-refl x)))) in
    Keeps-nonempty _ _ x _ refl
      (Keeps-if (str_eq p.network (codes "tcp")) x _ _ (Keeps-remove _ x _ refl plain) plain)

tuic_kept : (p : Proxy) (x : Fields) → Keeps x (tuic_entries p x)
unfolding tuic_entries
tuic_kept p x = add_native_tls-Keeps p x _ (
    Keeps-flag (codes "fast-open") p.fast_open x _ refl (
      Keeps-option (codes "max-open-streams") p.max_open_streams x _ refl (
        Keeps-option (codes "max-udp-relay-packet-size") p.max_udp_relay_packet_size x _ refl (
          Keeps-nonempty (codes "udp-relay-mode") p.udp_relay_mode x _ refl (
            Keeps-nonempty (codes "congestion-controller") p.congestion_control x _ refl (
              Keeps-option (codes "request-timeout") p.request_timeout x _ refl (
                Keeps-flag (codes "reduce-rtt") p.reduce_rtt x _ refl (
                  Keeps-flag (codes "disable-sni") p.disable_sni x _ refl (
                    Keeps-nonempty (codes "heartbeat-interval") p.heartbeat_interval x _ refl (
                      Keeps-text (codes "password") p.password x _ refl (
                        Keeps-text (codes "uuid") p.uuid x _ refl (
                          Keeps-insert (codes "version") (unsigned 5) x _ refl
                            (Keeps-refl x)))))))))))))

anytls_kept : (p : Proxy) (x : Fields) → Keeps x (anytls_entries p x)
unfolding anytls_entries
anytls_kept p x = Keeps-option (codes "min-idle-session") p.min_idle_session x _ refl (
    Keeps-option (codes "idle-session-timeout") p.idle_session_timeout x _ refl (
      Keeps-option (codes "idle-session-check-interval") p.idle_session_check_interval x _ refl (
        add_native_tls-Keeps p x _
          (Keeps-text (codes "password") p.password x _ refl (Keeps-refl x)))))

hysteria2_kept : (p : Proxy) (x : Fields) → Keeps x (hysteria2_entries p x)
unfolding hysteria2_entries
hysteria2_kept p x = add_native_tls-Keeps p x _ (
    Keeps-option (codes "hop-interval") p.hop_interval x _ refl (
      Keeps-option (codes "cwnd") p.cwnd x _ refl (
        Keeps-nonempty (codes "ca-str") p.ca_str x _ refl (
          Keeps-nonempty (codes "ca") p.ca x _ refl (
            Keeps-option (codes "down") p.down_mbps x _ refl (
              Keeps-option (codes "up") p.up_mbps x _ refl (
                Keeps-nonempty (codes "ports") p.ports x _ refl (
                  Keeps-nonempty (codes "obfs-password") p.obfs_password x _ refl (
                    Keeps-nonempty (codes "obfs") p.obfs x _ refl
                      (Keeps-text (codes "password") p.password x _ refl (Keeps-refl x)))))))))))

login_kept : (p : Proxy) (x : Fields) → Keeps x (login_entries p x)
unfolding login_entries
login_kept p x = Keeps-nonempty _ _ x _ refl (Keeps-nonempty _ _ x _ refl (Keeps-refl x))

snell_kept : (p : Proxy) (x : Fields) → Keeps x (snell_entries p x)
unfolding snell_entries
snell_kept p x =
    let versioned =
      Keeps-option _ _ x _ refl (Keeps-text (codes "psk") p.password x x refl (Keeps-refl x)) in
    Keeps-if (is_empty p.obfs && is_empty p.host) x _ _ versioned
      (Keeps-insert _ _ x _ refl versioned)

insert_address-Keeps :
    (test : Str → Bool) (k : Str) (addresses : List Str) (x y : Fields)
    → is_special k ≡ true
    → Keeps x y
    → Keeps x (insert_address test k addresses y)
unfolding insert_address
insert_address-Keeps test k addresses x y s h =
    elim (Option-cases (head? (filter test addresses))) [
      | inl e ↦ rw (e, insert_address) h
      | inr (a, e) ↦ rw (e, insert_address) (Keeps-text k a x y s h)
    ]

wireguard_kept : (p : Proxy) (x : Fields) → Keeps x (wireguard_entries p x)
unfolding wireguard_entries
wireguard_kept p x =
    let timed = Keeps-option (codes "persistent-keepalive") p.persistent_keepalive x _ refl (
      Keeps-option (codes "mtu") p.mtu x _ refl (
        Keeps-list (codes "dns") p.dns_servers x _ refl (
          Keeps-list (codes "allowed-ips") p.allowed_ips x _ refl (
            Keeps-nonempty (codes "pre-shared-key") p.pre_shared_key x _ refl (
              Keeps-nonempty (codes "public-key") p.public_key x _ refl (
                Keeps-nonempty (codes "private-key") p.private_key x _ refl (
                  insert_address-Keeps is_ipv6 (codes "ipv6") p.wireguard_address x _ refl (
                    insert_address-Keeps (λ address. not (is_ipv6 address)) (codes "ip")
                      p.wireguard_address x x refl (Keeps-refl x))))))))) in
    Keeps-if (is_empty p.reserved) x _ _ timed (Keeps-insert _ _ x _ refl timed)

pub kind_kept : (kind : ProxyKind) (p : Proxy) (x : Fields) → Keeps x (kind_entries kind p x)
unfolding kind_entries
kind_kept shadowsocks p x = shadowsocks_kept p x
kind_kept vmess p x = vmess_kept p x
kind_kept vless p x = vless_kept p x
kind_kept trojan p x = trojan_kept p x
kind_kept tuic p x = tuic_kept p x
kind_kept anytls p x = anytls_kept p x
kind_kept hysteria2 p x = hysteria2_kept p x
kind_kept snell p x = snell_kept p x
kind_kept wireguard p x = wireguard_kept p x
kind_kept http p x = login_kept p x
kind_kept socks5 p x = login_kept p x
kind_kept https p x = Keeps-insert _ _ x _ refl (login_kept p x)
