-- ===== src/Tests/Certifying.antt =====
-- A request for certificates of the nodes of a cluster.
use cbdynclusterd.Prelude.{false, ℕ, ◌+◌, ◌≡◌, refl}
use cbdynclusterd.Prelude.Text.{has_suffix, show_nat}
use cbdynclusterd.Prelude.Result.{ok}
use cbdynclusterd.Prelude.Exec.{for_each}
use cbdynclusterd.Context.{background, new_context}
use cbdynclusterd.Clusters.{Cluster, get_cluster}
use cbdynclusterd.Requests.{Request, reply, respond, get_http_context}
use cbdynclusterd.Handlers.{handle}
use cbdynclusterd.Certs.{
  CertTools, SetupClientCertAuthJson, CertAuthResult, setup_cert, certs_for, setup_cert_auth,
  http_setup_client_cert_auth,
}
use cbdynclusterd.Certs.Laws.{IsCertifiedBy, setup_client_cert_auth-reply}
use cbdynclusterd.Tests.Fixtures.{storage, engine, swap_two, alice, daemon}
use cbdynclusterd.Tests.Peers.{net}
use cbdynclusterd.Tests.Web.{now, found_c1}

-- Keys are numbered as they are made; a certificate is the number of the key that signed it.
abbrev tools : CertTools net
tools = record {
  Key = ℕ;
  CertRequest = ℕ;
  Cert = ℕ;
  Bytes = ℕ;
  Sftp = Unit {0};
  generate_key = λ w. (ok w, w + 1);
  create_root_cert = λ from until key w. (ok (key, key), w);
  create_node_cert_req = λ key w. (ok key, w);
  create_node_cert = λ from until key host root req w. (ok root, w);
  create_client_cert_req = λ user key w. (ok key, w);
  create_client_cert = λ from until key root req email w. (ok root, w);
  dial = λ login w. (ok tt, w);
  open_sftp = λ login w. (ok tt, w);
  make_directory = λ sftp path w. (ok tt, w);
  write_remote_cert = λ path cert sftp w. (ok tt, w);
  write_remote_key = λ path key sftp w. (ok tt, w);
  upload_cluster_ca = λ ca user password host w. (ok tt, w);
  reload_cluster_cert = λ user password host w. (ok tt, w);
  enable_client_cert_auth = λ user password host w. (ok tt, w);
  encode_cert = show_nat;
  encode_key = show_nat;
}

abbrev certify_c1 : Request SetupClientCertAuthJson
certify_c1 = record {
  user = alice;
  admin = "";
  cluster_id = "c1";
  body = ok (record { user_name = "alice"; user_email = alice });
  context = background;
}

-- The root's key is 0, those of the two nodes are 1 and 2, and the client's is 3.
abbrev certificates : CertAuthResult
certificates = record { ca_cert = "0"; client_key = "3"; client_cert = "0" }

certified_c1 :
    http_setup_client_cert_auth net tools storage engine swap_two now certify_c1 daemon 0
    ≡ (reply certificates, 4)
unfolding http_setup_client_cert_auth setup_cert_auth certs_for setup_cert for_each handle respond
    get_http_context has_suffix show_nat
certified_c1 = rw found_c1 refl

setup_client_cert_auth-reply_example :
    (req_data : SetupClientCertAuthJson) × (cluster : Cluster) × (certify_c1.body ≡ ok req_data)
    × (get_cluster storage engine swap_two (new_context background alice false) "c1" daemon
        ≡ ok cluster)
    × IsCertifiedBy net tools now req_data.user_name req_data.user_email cluster.nodes certificates
        0 4
setup_client_cert_auth-reply_example =
    setup_client_cert_auth-reply net tools now storage engine swap_two certify_c1 daemon 0 4
      certificates certified_c1
