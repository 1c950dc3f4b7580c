-- ===== src/Certs.antt =====
-- daemon/certauth.go, SetupCert of cluster/node.go and HttpSetupClientCertAuth of
-- daemon/restserver.go. Keys and certificates (crypto/rsa, encoding/pem, cbcerthelper) and the file
-- transfer (pkg/sftp) are a parameter, `CertTools`. Log lines are left out.
pub mod Chain
pub mod Laws
use Prim.Native.String.{◌++◌}
use cbdynclusterd.Prelude.{ℕ, ◌*◌, String, none, List, map}
use cbdynclusterd.Prelude.Int.{ℤ, pos}
use cbdynclusterd.Prelude.Result.{failure, message, Result, ok, err, panic}
use cbdynclusterd.Prelude.Exec.{Exec, pure, lift, for_each, ◌>>=◌, ◌>>◌}
use cbdynclusterd.Time.{Time, hour, add}
use cbdynclusterd.Clusters.{Node, Group, Daemon, get_cluster}
use cbdynclusterd.Rest.{Cred, Net}
use cbdynclusterd.Server.{Server}
use cbdynclusterd.Meta.{Storage}
use cbdynclusterd.Docker.{Docker}
use cbdynclusterd.Requests.{Request, Response, login}
use cbdynclusterd.Handlers.{handle}

-- The libraries' calls. A certificate is created from its first and last moment, the root's key
-- and certificate, and a request; a new session of SFTP belongs to a login.
pub record CertTools (net : Net) : Type 1 where
  pub Key : Type 0
  pub CertRequest : Type 0
  pub Cert : Type 0
  pub Bytes : Type 0
  pub Sftp : Type 0
  pub generate_key : Exec net.World Key
  pub create_root_cert : Time → Time → Key → Exec net.World (Cert × Bytes)
  pub create_node_cert_req : Key → Exec net.World CertRequest
  -- with the host's name
  pub create_node_cert : Time → Time → Key → String → Cert → CertRequest → Exec net.World Bytes
  pub create_client_cert_req : String → Key → Exec net.World CertRequest
  -- with the user's email
  pub create_client_cert : Time → Time → Key → Cert → CertRequest → String → Exec net.World Bytes
  -- ssh.Dial and sftp.NewClient
  pub dial : Cred → Exec net.World (Unit {0})
  pub open_sftp : Cred → Exec net.World Sftp
  -- sftpClient.Mkdir, whose error is only logged
  pub make_directory : Sftp → String → Exec net.World (Unit {0})
  pub write_remote_cert : String → Bytes → Sftp → Exec net.World (Unit {0})
  pub write_remote_key : String → Key → Sftp → Exec net.World (Unit {0})
  -- with the user, the password and the host
  pub upload_cluster_ca : Cert → String → String → String → Exec net.World (Unit {0})
  pub reload_cluster_cert : String → String → String → Exec net.World (Unit {0})
  pub enable_client_cert_auth : String → String → String → Exec net.World (Unit {0})
  -- pem.EncodeToMemory of a certificate, and of a private key
  pub encode_cert : Bytes → String
  pub encode_key : Key → String

pub record SetupClientCertAuthJson : Type 0 where
  pub user_name : String
  pub user_email : String

pub record CertAuthResult : Type 0 where
  pub ca_cert : String
  pub client_key : String
  pub client_cert : String

-- fmt.Errorf(what + ": %v", err)
abbrev pub add_text : {A : Type 0} → String → Result A → Result A
add_text what (ok a) = ok a
add_text what (err e) = err (failure (what ++ (": " ++ message e)))
add_text what panic = panic

abbrev pub explained : {S A : Type 0} → String → Exec S A → Exec S A
explained what m s = let (r, s') = m s in (add_text what r, s')

-- if err != nil { log.Printf(...) }
abbrev pub log_error : Result (Unit {0}) → Result (Unit {0})
log_error (ok u) = ok u
log_error (err e) = ok tt
log_error panic = panic

abbrev pub logged : {S : Type 0} → Exec S (Unit {0}) → Exec S (Unit {0})
logged m s = let (r, s') = m s in (log_error r, s')

abbrev pub days : ℕ → ℤ
days n = pos (n * 24 * hour)

-- The cluster.Node that SetupCertAuth builds; its other logins are nil, which nothing reads.
unfoldable pub cert_node : Node → Server
cert_node n = record {
  ssh_login = login "root" "couchbase" n.ipv4_address 22;
  rest_login = login "Administrator" "password" n.ipv4_address 8091;
  n1ql_login = login "" "" "" 0;
  fts_login = login "" "" "" 0;
  host_name = n.ipv4_address;
  port = "8091";
  version = "";
  services = "";
  otp_node = "";
  pools_nodes = none;
}

module _ (net : Net) (tools : CertTools net) where
  unfoldable pub setup_cert : tools.Cert → tools.Key → Time → Server → Exec net.World (Unit {0})
  setup_cert ca ca_private_key now n = do
    node_priv_key ← explained "failed to generate private key" tools.generate_key
    node_csr ←
        explained "failed to create certificate request" (tools.create_node_cert_req node_priv_key)
    node_cert ←
        explained "failed to create node certificate"
          (tools.create_node_cert now (add now (days 365)) ca_private_key n.host_name ca node_csr)
    explained "failed to create node ssh client" (tools.dial n.ssh_login)
    sftp ← explained "failed to create node sftp client" (tools.open_sftp n.ssh_login)
    logged (tools.make_directory sftp "/opt/couchbase/var/lib/couchbase/inbox")
    explained "failed to write node certificate"
        (tools.write_remote_cert "/opt/couchbase/var/lib/couchbase/inbox/chain.pem" node_cert sftp)
    explained "failed to write node key" (
        tools.write_remote_key "/opt/couchbase/var/lib/couchbase/inbox/pkey.key" node_priv_key sftp)
    explained "failed to upload cluster CA"
        (tools.upload_cluster_ca ca n.rest_login.username n.rest_login.password n.host_name)
    explained "failed to reload cluster cert"
        (tools.reload_cluster_cert n.rest_login.username n.rest_login.password n.host_name)
    explained "failed to enable client cert auth"
        (tools.enable_client_cert_auth n.rest_login.username n.rest_login.password n.host_name)

  -- setupCertAuth
  unfoldable pub certs_for : Time → String → String → List Server → Exec net.World CertAuthResult
  certs_for now username email nodes = do
    root_key ← explained "failed to generate private key" tools.generate_key
    (root_cert, root_bytes) ←
        explained "failed to generate root cert"
          (tools.create_root_cert now (add now (days 3650)) root_key)
    for_each tt (setup_cert root_cert root_key now) nodes
    client_key ← explained "failed to generate private key" tools.generate_key
    client_csr ← tools.create_client_cert_req username client_key
    client_cert ←
        tools.create_client_cert now (add now (days 365)) root_key root_cert client_csr email
    pure (record {
      ca_cert = tools.encode_cert root_bytes;
      client_key = tools.encode_key client_key;
      client_cert = tools.encode_cert client_cert;
    })

  unfoldable pub setup_cert_auth :
      Time → String → String → List Node → Exec net.World CertAuthResult
  setup_cert_auth now username email initial_nodes =
      certs_for now username email (map cert_node initial_nodes)

  module _ (st : Storage) (dk : Docker) where
    -- CertAuthResultJSON has the fields of CertAuthResult.
    unfoldable pub http_setup_client_cert_auth :
        (List Group → List Group)
        → Time
        → Request SetupClientCertAuthJson
        → Daemon st dk
        → net.World
        → Response CertAuthResult × net.World
    http_setup_client_cert_auth order now r s = handle r (λ ctx. do
      req_data ← lift r.body
      cluster ← lift (get_cluster st dk order ctx r.cluster_id s)
      setup_cert_auth now req_data.user_name req_data.user_email cluster.nodes)
