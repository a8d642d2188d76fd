-- ===== src/Examples/Metrics.antt =====
-- Examples for the dump of the peers, and for a poll of the collector.
use wiregui.Base.{
  ◌≡◌, refl, true, false, Option, none, some, List, [], ◌∷◌, map, All, Text, codes, inl, inr,
}
use wiregui.Wireguard.{parse_dump, get_peers}
use wiregui.Wireguard.Printed.{Dumped, IsField, IsPrinted, dump_text, parse_dump-dump_text}
use wiregui.Collector.{
  owner_of, poll, is_connected, update_db, build_prometheus_payload, text_of_lines,
}
use wiregui.Collector.Polled.{Polled, poll_lem}
use wiregui.Examples.Samples.{sample_settings, sample_db}
use wiregui.Examples.Peers.{wg0, memory_before, current_peers}

abbrev vm_url : Option Text
vm_url = some (codes "http://localhost:8428")

poll_lem_example :
    Polled vm_url 2000
      (λ p. 2000)
      sample_db
      (poll sample_settings wg0 vm_url 2000 (λ p. 2000) memory_before sample_db)
      (some current_peers)
unfolding owner_of get_peers
poll_lem_example =
    poll_lem sample_settings wg0 vm_url 2000 (λ p. 2000) memory_before sample_db (refl, (refl, tt))

-- A handshake at 100 seconds, seen in the last millisecond in which it counts, and after it.
recent : is_connected 279999 (some 100) ≡ true
unfolding is_connected
recent = refl

stale : is_connected 280000 (some 100) ≡ false
unfolding is_connected
stale = refl

-- The payload of a peer of a device and one that is of none.
payload_text :
    build_prometheus_payload 7 (λ p. 2000) current_peers (update_db current_peers sample_db).1
    ≡ text_of_lines (
        codes
          "wiregui_peer_rx_bytes{public_key=\"K1\",device_name=\"d1\",user_email=\"ann@example.org\"} 0 7"
        ∷ (codes
              "wiregui_peer_tx_bytes{public_key=\"K1\",device_name=\"d1\",user_email=\"ann@example.org\"} 0 7"
            ∷ (codes
                  "wiregui_peer_latest_handshake_seconds{public_key=\"K1\",device_name=\"d1\",user_email=\"ann@example.org\"} 0 7"
                ∷ (codes
                      "wiregui_peer_connected{public_key=\"K1\",device_name=\"d1\",user_email=\"ann@example.org\"} 0 7"
                    ∷ (codes "wiregui_peers_total 0 7" ∷ [])))))
unfolding build_prometheus_payload update_db
payload_text = refl

-- A peer with all columns, and one that has only a key.
abbrev dumped : List Dumped
dumped =
    record {
      peer = record {
        public_key = codes "K1";
        endpoint = some (codes "192.0.2.1:51820");
        allowed_ips = codes "10.3.2.2/32" ∷ (codes "10.9.0.0/24" ∷ []);
        latest_handshake = some 1700000000;
        rx_bytes = 1024;
        tx_bytes = 0;
      };
      preshared_key = codes "(none)";
      keepalive = codes "25";
    }
    ∷ (record {
      peer = record {
        public_key = codes "K2";
        endpoint = none;
        allowed_ips = [];
        latest_handshake = none;
        rx_bytes = 0;
        tx_bytes = 0;
      };
      preshared_key = codes "(none)";
      keepalive = codes "off";
    }
        ∷ [])

field : IsField (codes "(none)")
field = (refl, refl)

dumped-All : All IsPrinted dumped
dumped-All = (
  record {
    key = (refl, refl);
    psk = field;
    keepalive = (refl, refl);
    endpoint = (((refl, refl), refl), tt);
    ips = ((((refl, refl), refl), refl), ((((refl, refl), refl), refl), tt));
    handshake = inr refl;
  },
  (
    record {
      key = (refl, refl);
      psk = field;
      keepalive = (refl, refl);
      endpoint = tt;
      ips = tt;
      handshake = inl refl;
    },
    tt,
  ),
)

parse_dump-dump_text_example :
    parse_dump (dump_text (codes "SK\tPK\t51820\toff") dumped) ≡ some (map (λ d. d.peer) dumped)
parse_dump-dump_text_example =
    parse_dump-dump_text (codes "SK\tPK\t51820\toff") dumped refl dumped-All
