-- ===== src/Server.antt =====
-- cluster/node.go: the REST calls that configure a Couchbase node, and cluster/bucket.go and
-- cluster/collection.go. Log lines are left out. The bodies are the text that the code prints:
-- only some values are escaped.
use Prim.Native.String.{◌++◌}
use cbdynclusterd.Prelude.{ℕ, String, Option, none, some, List, [], ◌∷◌, if◌then◌else◌, ◌==◌}
use cbdynclusterd.Prelude.Int.{ℤ}
use cbdynclusterd.Prelude.Text.{itoa, join, contains}
use cbdynclusterd.Prelude.Result.{message, Result, ok, err, panic}
use cbdynclusterd.Prelude.Exec.{Exec, pure, ◌>>◌}
use cbdynclusterd.Escape.{query_escape}
use cbdynclusterd.Rest.{Cred, RestCall, Net, get_response, rest_retryer, rest_retry}

-- RespNode: what a server says of one member of its cluster.
pub record RespNode : Type 0 where
  pub cluster_membership : String
  pub host_name : String
  pub status : String
  pub ns_otp_node : String

-- cluster.Node, without the SSH session. `pools_nodes` is the cached answer of /pools/nodes, or nil.
pub record Server : Type 0 where
  pub ssh_login : Cred
  pub rest_login : Cred
  pub n1ql_login : Cred
  pub fts_login : Cred
  pub host_name : String
  pub port : String
  pub version : String
  pub services : String
  pub otp_node : String
  pub pools_nodes : Option (List RespNode)

pub record Bucket : Type 0 where
  pub bucket_type : String
  pub ram_quota_mb : String
  pub name : String
  pub replica_count : ℤ
  pub eph_eviction_policy : String

pub record Collection : Type 0 where
  pub name : String
  pub scope_name : String
  pub bucket_name : String

-- helper.UserOption; `roles` is nil or a list
pub record UserOption : Type 0 where
  pub name : String
  pub password : String
  pub roles : Option (List String)

abbrev pub form_header : List (String × String)
form_header = ("Content-Type", "application/x-www-form-urlencoded") ∷ []

-- A call with a form as its body.
unfoldable pub form_call : ℕ → ℕ → String → String → Cred → String → RestCall
form_call expected retry_on method path cred body = record {
  expected_code = expected;
  retry_on_code = retry_on;
  method = method;
  path = path;
  cred = cred;
  body = body;
  header = form_header;
  content_type = "";
}

-- A call with neither a body nor headers of its own.
unfoldable pub bare_call : String → String → Cred → RestCall
bare_call method path cred = record {
  expected_code = 200;
  retry_on_code = 0;
  method = method;
  path = path;
  cred = cred;
  body = "";
  header = [];
  content_type = "";
}

unfoldable pub create_bucket_body : Bucket → String
create_bucket_body conf =
    let body =
      "bucketType="
      ++ (conf.bucket_type ++ ("&name=" ++ (conf.name ++ ("&ramQuotaMB=" ++ conf.ram_quota_mb)))) in
    let replicated =
      if conf.bucket_type == "memcached"
      then body
      else body ++ ("&replicaNumber=" ++ itoa conf.replica_count) in
    if conf.bucket_type == "ephemeral"
    then replicated ++ ("&evictionPolicy=" ++ conf.eph_eviction_policy)
    else replicated

-- if user.Roles == nil { roles := []string{"admin"}; user.Roles = &roles }
unfoldable pub roles_or_admin : UserOption → List String
roles_or_admin user = elim user.roles [ none ↦ "admin" ∷ [] | some roles ↦ roles ]

unfoldable pub create_user_body : UserOption → String
create_user_body user =
    "name="
    ++ (user.name
        ++ ("&password=" ++ (user.password ++ ("&roles=" ++ join "," (roles_or_admin user)))))

module _ (net : Net) where
  -- helper.RestRetryer(retry, restParam, helper.GetResponse), its body dropped
  unfoldable pub rest_unit : ℕ → RestCall → Exec net.World (Unit {0})
  rest_unit retry call = do rest_retryer retry (get_response net) call; pure tt

  -- Some errors count as success: those whose text contains `tolerated`.
  abbrev tolerate : String → Result (Unit {0}) → Result (Unit {0})
  tolerate tolerated (ok u) = ok u
  tolerate tolerated (err e) = if contains (message e) tolerated then ok tt else err e
  tolerate tolerated panic = panic

  unfoldable pub tolerating : String → Exec net.World (Unit {0}) → Exec net.World (Unit {0})
  tolerating tolerated m s = let (r, s') = m s in (tolerate tolerated r, s')

  module _ (n : Server) where
    unfoldable pub add_node : Server → Exec net.World (Unit {0})
    add_node new_node = tolerating "user is missing" (
        rest_unit rest_retry (
          form_call 200 400 "POST" "/controller/addNode" n.rest_login (
            "user="
            ++ (n.rest_login.username
                ++ ("&password="
                    ++ (n.rest_login.password
                        ++ ("&hostname="
                            ++ (new_node.host_name
                                ++ ("&services=" ++ query_escape new_node.services)))))))))

    unfoldable pub provision : Exec net.World (Unit {0})
    provision = rest_unit rest_retry (
        form_call 200 0 "POST" "/settings/web" n.rest_login (
          "port=SAME&username="
          ++ (n.rest_login.username ++ ("&password=" ++ n.rest_login.password))))

    unfoldable pub set_memory_quota : String → Exec net.World (Unit {0})
    set_memory_quota quota =
        rest_unit rest_retry
          (form_call 200 0 "POST" "/pools/default" n.rest_login ("memoryQuota=" ++ quota))

    unfoldable pub setup_memory_quota : ℤ → Exec net.World (Unit {0})
    setup_memory_quota quota =
        rest_unit rest_retry
          (form_call 200 0 "POST" "/pools/default" n.rest_login ("memoryQuota=" ++ itoa quota))

    unfoldable pub rename : String → Exec net.World (Unit {0})
    rename hostname =
        rest_unit rest_retry
          (form_call 200 0 "POST" "/node/controller/rename" n.rest_login ("hostname=" ++ hostname))

    unfoldable pub setup_initial_service : Exec net.World (Unit {0})
    setup_initial_service = rest_unit 20 (
        form_call 200 400 "POST" "/node/controller/setupServices" n.rest_login
          ("services=" ++ query_escape n.services))

    unfoldable pub set_storage_mode : String → Exec net.World (Unit {0})
    set_storage_mode mode =
        rest_unit rest_retry
          (form_call 200 0 "POST" "/settings/indexes" n.rest_login ("storageMode=" ++ mode))

    -- The part of cluster.Config that it reads: the memory quota and the storage mode.
    unfoldable pub init_new_cluster : String → String → Exec net.World (Unit {0})
    init_new_cluster quota storage_mode = do
      set_memory_quota quota
      if storage_mode == "" then pure tt else set_storage_mode storage_mode
      provision

    unfoldable pub create_fts_index : String → String → String → Exec net.World (Unit {0})
    create_fts_index name bucket_type bucket =
        tolerating "index with the same name already exists" (
          rest_unit rest_retry (
            bare_call "PUT"
              ("/api/index/"
                ++ (name
                    ++ ("?sourceType="
                        ++ (bucket_type ++ ("&indexType=fulltext-index&sourceName=" ++ bucket)))))
              n.fts_login))

    unfoldable pub create_n1ql_index : String → String → String → Exec net.World (Unit {0})
    create_n1ql_index name fields bucket = rest_unit rest_retry (
        form_call 200 0 "POST" "/query" n.n1ql_login (
          "statement="
          ++ query_escape
              ("create index " ++ (name ++ (" on `" ++ (bucket ++ ("` (" ++ (fields ++ ")"))))))))

    unfoldable pub change_bucket_compression : String → String → Exec net.World (Unit {0})
    change_bucket_compression bucket mode = rest_unit rest_retry (
        form_call 200 0 "POST" ("/pools/default/buckets/" ++ bucket) n.rest_login
          ("name=" ++ (bucket ++ ("&compressionMode=" ++ mode))))

    unfoldable pub create_bucket : Bucket → Exec net.World (Unit {0})
    create_bucket conf =
        rest_unit rest_retry
          (form_call 202 0 "POST" "/pools/default/buckets" n.rest_login (create_bucket_body conf))

    unfoldable pub create_collection : Collection → Exec net.World (Unit {0})
    create_collection conf = rest_unit rest_retry (
        form_call 200 0 "POST"
          ("/pools/default/buckets/"
            ++ (conf.bucket_name ++ ("/scopes/" ++ (conf.scope_name ++ "/collections"))))
          n.rest_login ("name=" ++ query_escape conf.name))

    unfoldable pub enable_developer_preview : Exec net.World (Unit {0})
    enable_developer_preview =
        rest_unit rest_retry
          (form_call 200 0 "POST" "/settings/developerPreview" n.rest_login "enabled=true")

    unfoldable pub create_user : UserOption → Exec net.World (Unit {0})
    create_user user = rest_unit rest_retry (
        form_call 200 0 "PUT" ("/settings/rbac/users/local/" ++ user.name) n.rest_login
          (create_user_body user))

    unfoldable pub delete_bucket : String → Exec net.World (Unit {0})
    delete_bucket name =
        rest_unit rest_retry (bare_call "DELETE" ("/pools/default/buckets/" ++ name) n.rest_login)

    unfoldable pub stop_rebalance : Exec net.World String
    stop_rebalance =
        rest_retryer rest_retry (get_response net)
          (bare_call "POST" "/controller/stopRebalance" n.rest_login)

    unfoldable pub get_info : Exec net.World String
    get_info = rest_retryer rest_retry (get_response net) (bare_call "GET" "/pools" n.rest_login)
