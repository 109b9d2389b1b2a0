-- ===== src/System/Setup.antt =====
-- What a server and a client are made with: `ServerConfig` of src/server.rs, and the constructors of
-- `Client` and `NoCertificateVerification` of src/client.rs.
use hardlight.Prelude.{
  ℕ, ◌≤◌, ◌<◌, ◌^◌, ◌≡◌, refl, Bool, true, Option, some, inl, inr, List, [], ◌∷◌, arith,
  Option-cases,
}
use hardlight.Wire.{Bytes}
use hardlight.Codec.{◌>>=◌}
use hardlight.Handshake.{Response, ReadsVisible, hl_version_string, client_request}
use hardlight.Server.Connection.{new_connection}
use hardlight.Client.{new_client}
use hardlight.System.Opening.{accept_connection, open_client, started, Delivers, connection_opens}

-- rustls, rcgen and rustls-native-certs.
pub record Tls : Type 1 where
  pub Certificate : Type 0
  pub PrivateKey : Type 0
  pub TlsServerConfig : Type 0
  pub RootCertStore : Type 0
  -- The certificate for the host, with its key, in DER.
  pub generate_simple_self_signed : Bytes → Option (Certificate × PrivateKey)
  pub with_single_cert : Certificate → PrivateKey → Option TlsServerConfig
  pub empty_store : RootCertStore
  pub add_root : RootCertStore → Certificate → Option RootCertStore
  pub load_native_certs : Option (List Certificate)
  -- Whether a client that judges certificates by the function can open a TLS session.
  pub opens : TlsServerConfig → (Certificate → Bool) → Bool
  -- How a client judges that trusts the roots of a store.
  pub trusted : RootCertStore → Certificate → Bool

module _ (tls : Tls) where
  open tls use {
    Certificate, PrivateKey, TlsServerConfig, RootCertStore, generate_simple_self_signed,
    with_single_cert, empty_store, add_root, load_native_certs, opens, trusted,
  }

  -- What rustls documents: a session opens if the client's verifier accepts the certificate that the
  -- server was given.
  abbrev pub OpensIfAccepted : Type 0
  OpensIfAccepted =
      (certificate : Certificate) (key : PrivateKey) (config : TlsServerConfig)
      (verify : Certificate → Bool)
      → with_single_cert certificate key ≡ some config
      → verify certificate ≡ true
      → opens config verify ≡ true

  pub record ServerConfig : Type 0 where
    pub address : Bytes
    pub version_major : ℕ
    pub tls_config : TlsServerConfig

  -- `hl_major` is the major version of `HL_VERSION`, that of the crate, which both peers parse.
  module _ (hl_major : ℕ) where
    unfoldable pub server_config : Bytes → TlsServerConfig → ServerConfig
    server_config host config = record {
      address = host;
      version_major = hl_major;
      tls_config = config;
    }

    -- `none` is the panic of `unwrap` or `expect`.
    unfoldable pub self_signed_config : Bytes → Option ServerConfig
    unfolding server_config
    self_signed_config host = do
      made ← generate_simple_self_signed host
      config ← with_single_cert made.0 made.1
      some (server_config host config)

    -- `NoCertificateVerification::verify_server_cert`
    abbrev pub verify_server_cert : Certificate → Bool
    verify_server_cert end_entity = true

    pub record ClientConfig : Type 0 where
      pub verifier : Certificate → Bool
      pub host : Bytes
      pub compression : ℕ

    -- A client before it connects; its state is the default one.
    pub record NewClient : Type 0 where
      pub config : ClientConfig
      pub version : Bytes

    unfoldable pub new_with_config : ClientConfig → NewClient
    new_with_config config = record { config = config; version = hl_version_string hl_major }

    unfoldable pub self_signed_client : Bytes → ℕ → NewClient
    unfolding new_with_config
    self_signed_client host compression =
        new_with_config
          (record { verifier = verify_server_cert; host = host; compression = compression })

    -- The loop over the roots of the system; each `unwrap` may panic.
    unfoldable pub add_roots : List Certificate → RootCertStore → Option RootCertStore
    add_roots [] store = some store
    add_roots (certificate ∷ rest) store = do more ← add_root store certificate; add_roots rest more

    unfoldable pub rooted_client : Bytes → ℕ → Option NewClient
    unfolding new_with_config add_roots
    rooted_client host compression = do
      roots ← load_native_certs
      store ← add_roots roots empty_store
      some (
          new_with_config
            (record { verifier = trusted store; host = host; compression = compression }))

    self_signed_opens :
        OpensIfAccepted
        → (host : Bytes) (config : ServerConfig) → self_signed_config host ≡ some config
        → (opens config.tls_config verify_server_cert ≡ true) × (config.version_major ≡ hl_major)
    unfolding self_signed_config server_config
    self_signed_opens law host config made =
        elim (Option-cases (generate_simple_self_signed host)) [
          | inl e ↦ absurd (ground (arith, made, e))
          | inr (certified, e) ↦ elim (Option-cases (with_single_cert certified.0 certified.1)) [
            | inl g ↦ absurd (ground (arith, made, e, g))
            | inr (tls_config, g) ↦
                let is : server_config host tls_config ≡ config = ground (arith, made, e, g) in
                rw (← is) (law certified.0 certified.1 tls_config verify_server_cert g refl, refl)
          ]
        ]

    module _ {S : Type 0} (to_str : Bytes → Option Bytes) (default_level : ℕ)
        (deliver : Response → Option Response) where
      -- A self-signed server and a client that was made by `new_self_signed` always reach their loops,
      -- at the level that the client was made with, whatever host the certificate is for, if the
      -- transport works, rustls opens sessions that the verifier accepts, header values of visible
      -- characters can be read, the version fits 32 bits and the level is at most 9.
      pub self_signed_peers_connect :
          OpensIfAccepted
          → ReadsVisible to_str
          → Delivers deliver
          → hl_major < 2 ^ 32
          → (server_host client_host : Bytes) (level : ℕ) (initial : S) (config : ServerConfig)
          → level ≤ 9
          → self_signed_config server_host ≡ some config
          → let c = self_signed_client client_host level in
            (response : Response) × (accept_connection to_str default_level
                (opens config.tls_config c.config.verifier)
                true
                (hl_version_string config.version_major)
                (client_request c.version c.config.compression)
              ≡ some (new_connection level, response))
            × (open_client c.version c.config.compression initial (deliver response)
                ≡ started (new_client level initial))
      unfolding self_signed_config self_signed_client
      self_signed_peers_connect law reads delivers small server_host client_host level initial
            config level_ok made =
          let (opened, version) = self_signed_opens law server_host config made in
          let (response, accepts, same, differ) =
            connection_opens to_str default_level deliver reads delivers hl_major hl_major level
              initial small small level_ok in
          (response, rw (opened, version) accepts, same refl)
