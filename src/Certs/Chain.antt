-- ===== src/Certs/Chain.antt =====
-- What SetupCert of cluster/node.go does to one node and then the next, call by call.
use cbdynclusterd.Prelude.{String, List, [], ◌∷◌, map, ◌≡◌, sym, ap}
use cbdynclusterd.Prelude.Result.{Result, ok, err, panic, ok-injective}
use cbdynclusterd.Prelude.Exec.{Exec, pure, for_each, exec-eq-ok, Gives, ◌>>=◌}
use cbdynclusterd.Time.{Time, add}
use cbdynclusterd.Rest.{Net}
use cbdynclusterd.Clusters.{Node}
use cbdynclusterd.Requests.{login}
use cbdynclusterd.Certs.{CertTools, add_text, explained, logged, days, cert_node, setup_cert}

pub then-eq-ok :
    {S A B : Type 0} (m : Exec S A) (f : A → Exec S B) (b : B) (s last : S)
    → Gives (m >>= f) b s last
    → (a : A) × (s' : S) × Gives m a s s' × Gives (f a) b s' last
then-eq-ok m f b s last h =
    let (a, done, rest) = exec-eq-ok (m s).0 f (m s).1 last b h in
    (a, (m s).1, (λ i. (done i, (m s).1)), rest)

text-eq-ok : {A : Type 0} (what : String) (r : Result A) (a : A) → add_text what r ≡ ok a → r ≡ ok a
text-eq-ok what (ok b) a h = h
text-eq-ok what (err e) a h = cc
text-eq-ok what panic a h = cc

explained-eq :
    {S A : Type 0} (what : String) (m : Exec S A) (a : A) (s s' : S)
    → Gives (explained what m) a s s'
    → Gives m a s s'
explained-eq what m a s s' h =
    λ i. (text-eq-ok what (m s).0 a (ap (λ r. r.0) h) i, ap (λ r. r.1) h i)

-- A step whose error is explained, and what follows it.
pub explained-eq-ok :
    {S A B : Type 0} (what : String) (m : Exec S A) (f : A → Exec S B) (b : B) (s last : S)
    → Gives (explained what m >>= f) b s last
    → (a : A) × (s' : S) × Gives m a s s' × Gives (f a) b s' last
explained-eq-ok what m f b s last h =
    let (a, s', done, rest) = then-eq-ok (explained what m) f b s last h in
    (a, s', explained-eq what m a s s' done, rest)

pub pure-eq-ok :
    {S A : Type 0} (a b : A) (s last : S) → Gives (pure a) b s last → (b ≡ a) × (s ≡ last)
pure-eq-ok a b s last h = (sym (ok-injective (ap (λ r. r.0) h)), ap (λ r. r.1) h)

module _ (net : Net) (tools : CertTools net) (now : Time) where
  -- What SetupCert has done to a node between two states of the network, in this order: it made a
  -- key of the node's own, and a certificate for it, signed with the root's key and valid for 365
  -- days; opened a session on the node, and wrote the certificate and the key; then told the server
  -- the root's certificate, to load its own, and to accept clients' certificates.
  pub record IsCertified (ca : tools.Cert) (ca_key : tools.Key) (n : Node) (s last : net.World)
      : Type 0 where
    pub key : tools.Key
    pub req : tools.CertRequest
    pub cert : tools.Bytes
    pub sftp : tools.Sftp
    pub s1 : net.World
    pub s2 : net.World
    pub s3 : net.World
    pub s4 : net.World
    pub s5 : net.World
    pub s6 : net.World
    pub s7 : net.World
    pub s8 : net.World
    pub s9 : net.World
    pub s10 : net.World
    pub generated : Gives tools.generate_key key s s1
    pub requested : Gives (tools.create_node_cert_req key) req s1 s2
    pub signed :
        Gives
          (tools.create_node_cert now (add now (days 365)) ca_key n.ipv4_address ca req)
          cert
          s2
          s3
    pub dialled : Gives (tools.dial (login "root" "couchbase" n.ipv4_address 22)) tt s3 s4
    pub opened : Gives (tools.open_sftp (login "root" "couchbase" n.ipv4_address 22)) sftp s4 s5
    pub made :
        Gives (logged (tools.make_directory sftp "/opt/couchbase/var/lib/couchbase/inbox")) tt s5 s6
    pub cert_there :
        Gives
          (tools.write_remote_cert "/opt/couchbase/var/lib/couchbase/inbox/chain.pem" cert sftp)
          tt
          s6
          s7
    pub key_there :
        Gives
          (tools.write_remote_key "/opt/couchbase/var/lib/couchbase/inbox/pkey.key" key sftp)
          tt
          s7
          s8
    pub uploaded :
        Gives (tools.upload_cluster_ca ca "Administrator" "password" n.ipv4_address) tt s8 s9
    pub loaded :
        Gives (tools.reload_cluster_cert "Administrator" "password" n.ipv4_address) tt s9 s10
    pub enabled :
        Gives (tools.enable_client_cert_auth "Administrator" "password" n.ipv4_address) tt s10 last

  setup_cert-IsCertified :
      (ca : tools.Cert) (ca_key : tools.Key) (n : Node) (s last : net.World)
      → Gives (setup_cert net tools ca ca_key now (cert_node n)) tt s last
      → IsCertified ca ca_key n s last
  unfolding setup_cert cert_node
  setup_cert-IsCertified ca ca_key n s last h =
      let (key, s1, generated, h1) = explained-eq-ok _ tools.generate_key _ tt s last h in
      let (req, s2, requested, h2) =
        explained-eq-ok _ (tools.create_node_cert_req key) _ tt s1 last h1 in
      let (cert, s3, signed, h3) =
        explained-eq-ok _
          (tools.create_node_cert now (add now (days 365)) ca_key n.ipv4_address ca req) _ tt s2
          last h2 in
      let (_, s4, dialled, h4) =
        explained-eq-ok _ (tools.dial (login "root" "couchbase" n.ipv4_address 22)) _ tt s3 last
          h3 in
      let (sftp, s5, opened, h5) =
        explained-eq-ok _ (tools.open_sftp (login "root" "couchbase" n.ipv4_address 22)) _ tt s4
          last h4 in
      let (_, s6, made, h6) =
        then-eq-ok (logged (tools.make_directory sftp "/opt/couchbase/var/lib/couchbase/inbox")) _
          tt s5 last h5 in
      let (_, s7, cert_there, h7) =
        explained-eq-ok _
          (tools.write_remote_cert "/opt/couchbase/var/lib/couchbase/inbox/chain.pem" cert sftp) _
          tt s6 last h6 in
      let (_, s8, key_there, h8) =
        explained-eq-ok _
          (tools.write_remote_key "/opt/couchbase/var/lib/couchbase/inbox/pkey.key" key sftp) _ tt
          s7 last h7 in
      let (_, s9, uploaded, h9) =
        explained-eq-ok _ (tools.upload_cluster_ca ca "Administrator" "password" n.ipv4_address) _
          tt s8 last h8 in
      let (_, s10, loaded, h10) =
        explained-eq-ok _ (tools.reload_cluster_cert "Administrator" "password" n.ipv4_address) _ tt
          s9 last h9 in
      record {
        key = key;
        req = req;
        cert = cert;
        sftp = sftp;
        s1 = s1;
        s2 = s2;
        s3 = s3;
        s4 = s4;
        s5 = s5;
        s6 = s6;
        s7 = s7;
        s8 = s8;
        s9 = s9;
        s10 = s10;
        generated = generated;
        requested = requested;
        signed = signed;
        dialled = dialled;
        opened = opened;
        made = made;
        cert_there = cert_there;
        key_there = key_there;
        uploaded = uploaded;
        loaded = loaded;
        enabled =
            explained-eq _ (tools.enable_client_cert_auth "Administrator" "password" n.ipv4_address)
              tt s10 last h10;
      }

  -- One node after the other.
  abbrev pub AllCertified : tools.Cert → tools.Key → List Node → net.World → net.World → Type 0
  AllCertified ca ca_key [] s last = s ≡ last
  AllCertified ca ca_key (n ∷ ns) s last =
      (mid : net.World) × IsCertified ca ca_key n s mid × AllCertified ca ca_key ns mid last

  pub for_each-AllCertified :
      (ca : tools.Cert) (ca_key : tools.Key) (ns : List Node) (s last : net.World)
      → Gives (for_each tt (setup_cert net tools ca ca_key now) (map cert_node ns)) tt s last
      → AllCertified ca ca_key ns s last
  unfolding for_each
  for_each-AllCertified ca ca_key [] s last h = ap (λ r. r.1) h
  for_each-AllCertified ca ca_key (n ∷ ns) s last h =
      let (_, mid, done, rest) =
        then-eq-ok (setup_cert net tools ca ca_key now (cert_node n)) _ tt s last h in
      (
        mid,
        setup_cert-IsCertified ca ca_key n s mid done,
        for_each-AllCertified ca ca_key ns mid last rest,
      )
