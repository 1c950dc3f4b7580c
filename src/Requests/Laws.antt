-- ===== src/Requests/Laws.antt =====
-- The options that a request to create a cluster gives.
use cbdynclusterd.Prelude.{List, [], ◌∷◌, length, suc, ◌≡◌, sym, ◌∙◌, ap, subst, String}
use cbdynclusterd.Prelude.Result.{Result, ok, ok-injective, >>=-eq-ok, traverse, ◌>>=◌}
use cbdynclusterd.Time.{Duration}
use cbdynclusterd.Version.{Products}
use cbdynclusterd.Allocate.{ClusterOptions}
use cbdynclusterd.WireJson.{CreateClusterJson}
use cbdynclusterd.Requests.{create_options, requested_timeout, node_options}

length-traverse :
    {A B : Type 0} (f : A → Result B) (xs : List A) (ys : List B)
    → traverse f xs ≡ ok ys
    → length ys ≡ length xs
unfolding traverse
length-traverse f [] ys h = ap length (sym (ok-injective h))
length-traverse f (x ∷ xs) ys h =
    let (y, got, h') = >>=-eq-ok (f x) (λ y. ◌>>=◌ (traverse f xs) (λ zs. ok (y ∷ zs))) h in
    let (zs, rest, whole) = >>=-eq-ok (traverse f xs) (λ zs. ok (y ∷ zs)) h' in
    ap length (sym (ok-injective whole)) ∙ ap suc (length-traverse f xs zs rest)

pub length-create_options :
    (parse : String → Result Duration) (products : Result Products) (req : CreateClusterJson)
    (opts : ClusterOptions)
    → create_options parse products req ≡ ok opts
    → (requested_timeout parse req.timeout ≡ ok opts.timeout)
      × (length opts.nodes ≡ length req.nodes)
unfolding create_options
length-create_options parse products req opts h =
    let (t, timed, h') =
      >>=-eq-ok (requested_timeout parse req.timeout)
        (λ t.
          ◌>>=◌ (traverse (node_options products) req.nodes)
            (λ ns. ok (record { timeout = t; nodes = ns })))
        h in
    let (ns, named, whole) =
      >>=-eq-ok (traverse (node_options products) req.nodes)
        (λ ns. ok (record { timeout = t; nodes = ns })) h' in
    let same = ok-injective whole in
    (
      subst (λ (o : ClusterOptions). requested_timeout parse req.timeout ≡ ok o.timeout) same timed,
      subst (λ (o : ClusterOptions). length o.nodes ≡ length req.nodes) same
          (length-traverse (node_options products) req.nodes ns named),
    )
