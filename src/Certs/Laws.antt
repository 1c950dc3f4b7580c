-- ===== src/Certs/Laws.antt =====
-- What it means that setting up certificates (daemon/certauth.go, SetupCert of cluster/node.go,
-- HttpSetupClientCertAuth) succeeds.
use cbdynclusterd.Prelude.{String, List, map, ◌≡◌, ◌∙◌, sym, ap, subst}
use cbdynclusterd.Prelude.Result.{ok}
use cbdynclusterd.Prelude.Exec.{Exec, lift, for_each, Gives, ◌>>=◌}
use cbdynclusterd.Time.{Time, add}
use cbdynclusterd.Context.{Context}
use cbdynclusterd.Meta.{Storage}
use cbdynclusterd.Docker.{Docker}
use cbdynclusterd.Rest.{Net}
use cbdynclusterd.Clusters.{Node, Cluster, Group, Daemon, get_cluster}
use cbdynclusterd.Requests.{Request, reply}
use cbdynclusterd.Handlers.Laws.{request_context, handle-eq-reply}
use cbdynclusterd.Certs.{
  CertTools, SetupClientCertAuthJson, CertAuthResult, days, cert_node, setup_cert, certs_for,
  setup_cert_auth, http_setup_client_cert_auth,
}
use cbdynclusterd.Certs.Chain.{
  then-eq-ok, explained-eq-ok, pure-eq-ok, AllCertified, for_each-AllCertified,
}

module _ (net : Net) (tools : CertTools net) (now : Time) where
  -- What setupCertAuth has done between two states, in this order: it made a key and a root
  -- certificate for it, valid for 3650 days, with which it certified the nodes; then made another
  -- key, and a certificate for it, the user and his email, signed with the root's key and valid for
  -- 365 days. It returns the two certificates and the second key.
  pub record IsCertifiedBy (username email : String) (nodes : List Node) (result : CertAuthResult)
      (s last : net.World) : Type 0 where
    pub root_key : tools.Key
    pub root : tools.Cert
    pub root_bytes : tools.Bytes
    pub key : tools.Key
    pub req : tools.CertRequest
    pub cert : tools.Bytes
    pub s1 : net.World
    pub s2 : net.World
    pub s3 : net.World
    pub s4 : net.World
    pub s5 : net.World
    pub root_generated : Gives tools.generate_key root_key s s1
    pub root_signed :
        Gives (tools.create_root_cert now (add now (days 3650)) root_key) (root, root_bytes) s1 s2
    pub certified : AllCertified net tools now root root_key nodes s2 s3
    pub generated : Gives tools.generate_key key s3 s4
    pub requested : Gives (tools.create_client_cert_req username key) req s4 s5
    pub signed :
        Gives
          (tools.create_client_cert now (add now (days 365)) root_key root req email)
          cert
          s5
          last
    pub answer : result ≡ record {
      ca_cert = tools.encode_cert root_bytes;
      client_key = tools.encode_key key;
      client_cert = tools.encode_cert cert;
    }

  certs_for-IsCertifiedBy :
      (username email : String) (nodes : List Node) (result : CertAuthResult) (s last : net.World)
      → Gives (certs_for net tools now username email (map cert_node nodes)) result s last
      → IsCertifiedBy username email nodes result s last
  unfolding certs_for
  certs_for-IsCertifiedBy username email nodes result s last h =
      let (root_key, s1, made, h1) = explained-eq-ok _ tools.generate_key _ result s last h in
      let ((root, root_bytes), s2, signed, h2) =
        explained-eq-ok _ (tools.create_root_cert now (add now (days 3650)) root_key) _ result s1
          last h1 in
      let (_, s3, each, h3) =
        then-eq-ok (for_each tt (setup_cert net tools root root_key now) (map cert_node nodes)) _
          result s2 last h2 in
      let (key, s4, generated, h4) = explained-eq-ok _ tools.generate_key _ result s3 last h3 in
      let (req, s5, requested, h5) =
        then-eq-ok (tools.create_client_cert_req username key) _ result s4 last h4 in
      let (cert, s6, given, h6) =
        then-eq-ok (tools.create_client_cert now (add now (days 365)) root_key root req email) _
          result s5 last h5 in
      let (answer, left) = pure-eq-ok _ result s6 last h6 in
      record {
        root_key = root_key;
        root = root;
        root_bytes = root_bytes;
        key = key;
        req = req;
        cert = cert;
        s1 = s1;
        s2 = s2;
        s3 = s3;
        s4 = s4;
        s5 = s5;
        root_generated = made;
        root_signed = signed;
        certified = for_each-AllCertified net tools now root root_key nodes s2 s3 each;
        generated = generated;
        requested = requested;
        signed =
            subst
              (λ w.
                Gives (tools.create_client_cert now (add now (days 365)) root_key root req email)
                  cert s5 w)
              left given;
        answer = answer;
      }

  module _ (st : Storage) (dk : Docker) where
    -- If HttpSetupClientCertAuth answers with certificates, the requester sees a cluster under this
    -- ID, and the network went through these calls, one after the other and each without an error: a
    -- new key was made, and with it a root certificate, valid for 3650 days; for each node of the
    -- cluster a new key was made and a certificate for it and its IPv4 address, signed with the
    -- root's key and valid for 365 days, both were written to the node, and its server was given the
    -- root's certificate, loaded its own, and accepts clients' certificates; then a new key was made
    -- and a certificate for it and the named user, signed with the root's key and valid for 365 days.
    -- The answer holds the root's certificate, and the last key and its certificate.
    pub setup_client_cert_auth-reply :
        (order : List Group → List Group) (r : Request SetupClientCertAuthJson) (s : Daemon st dk)
        (world last : net.World) (result : CertAuthResult)
        → http_setup_client_cert_auth net tools st dk order now r s world ≡ (reply result, last)
        → (req_data : SetupClientCertAuthJson) × (cluster : Cluster) × (r.body ≡ ok req_data)
          × (get_cluster st dk order (request_context r) r.cluster_id s ≡ ok cluster)
          × IsCertifiedBy req_data.user_name req_data.user_email cluster.nodes result world last
    unfolding http_setup_client_cert_auth setup_cert_auth
    setup_client_cert_auth-reply order r s world last result h =
        let steps : Context → Exec net.World CertAuthResult = λ ctx. (do
          req_data ← lift r.body
          cluster ← lift (get_cluster st dk order ctx r.cluster_id s)
          setup_cert_auth net tools now req_data.user_name req_data.user_email cluster.nodes) in
        let (_, done, same) = handle-eq-reply r steps world result (ap (λ x. x.0) h) in
        let left = sym same ∙ ap (λ x. x.1) h in
        let (req_data, s1, read, h1) =
          then-eq-ok (lift r.body) _ result world last (λ i. (done i, left i)) in
        let (cluster, s2, seen, h2) =
          then-eq-ok (lift (get_cluster st dk order (request_context r) r.cluster_id s)) _ result s1
            last h1 in
        let from : s2 ≡ world = sym (ap (λ x. x.1) seen) ∙ sym (ap (λ x. x.1) read) in
        (
          req_data,
          cluster,
          ap (λ x. x.0) read,
          ap (λ x. x.0) seen,
          subst
              (λ w.
                IsCertifiedBy req_data.user_name req_data.user_email cluster.nodes result w last)
              from
              (certs_for-IsCertifiedBy req_data.user_name req_data.user_email cluster.nodes result
                s2 last h2),
        )
