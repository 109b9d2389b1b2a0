-- ===== src/Tests/Setup.antt =====
-- A server with a certificate for one host, and a client of another.
use hardlight.Prelude.{◌≡◌, refl, true, none, some, inr, List, [], ◌∷◌, arith}
use hardlight.Wire.{Bytes}
use hardlight.Handshake.{Response, hl_version_string, client_request}
use hardlight.Server.Connection.{new_connection}
use hardlight.Client.{new_client}
use hardlight.System.Opening.{accept_connection, open_client, started, Delivers}
use hardlight.System.Setup.{
  Tls, OpensIfAccepted, ServerConfig, self_signed_config, self_signed_client,
  self_signed_peers_connect,
}

-- A certificate is the host that it is for.
abbrev plain_tls : Tls
plain_tls = record {
  Certificate = Bytes;
  PrivateKey = Unit;
  TlsServerConfig = Bytes;
  RootCertStore = List Bytes;
  generate_simple_self_signed = λ host. some (host, tt);
  with_single_cert = λ certificate key. some certificate;
  empty_store = [];
  add_root = λ store certificate. some (certificate ∷ store);
  load_native_certs = none;
  opens = λ config verify. verify config;
  trusted = λ store certificate. true;
}

plain_tls-OpensIfAccepted : OpensIfAccepted plain_tls
plain_tls-OpensIfAccepted certificate key config verify given accepts =
    let same : certificate ≡ config = ground (arith, given) in rw (← same) accepts

some-Delivers : Delivers some
some-Delivers = record { unchanged = λ r. inr refl; switches = λ r status. refl }

abbrev home : ServerConfig plain_tls
home = record { address = b'h' ∷ []; version_major = 2; tls_config = b'h' ∷ [] }

self_signed_peers_connect_example :
    let c = self_signed_client plain_tls 2 (b'x' ∷ []) 9 in
    (response : Response) × (accept_connection some 6 true true
        (hl_version_string 2)
        (client_request c.version c.config.compression)
      ≡ some (new_connection 9, response))
    × (open_client c.version c.config.compression tt (some response) ≡ started (new_client 9 tt))
unfolding self_signed_config self_signed_client
self_signed_peers_connect_example =
    self_signed_peers_connect plain_tls 2 some 6 some plain_tls-OpensIfAccepted
      (λ value visible. refl) some-Delivers (omega arith) (b'h' ∷ []) (b'x' ∷ []) 9 tt home
      (omega arith) refl
