-- ===== src/Tests/Fixtures.antt =====
-- A store that is an association list, a Docker that is a list of containers, and a small fleet.
use Prim.Native.String.{◌++◌, len}
use text.Mathlib.TextPositions.{len-append}
use cbdynclusterd.Prelude.{
  ℕ, zero, suc, ◌+◌, ◌*◌, ◌/◌, String, false, Option, none, some, List, [], ◌∷◌, keep, not,
  if◌then◌else◌, ◌==◌, All, Permᴰ, Reorders, ◌≡◌, refl, sym, ◌∙◌, ap, subst, arith, eq_iff,
}
use cbdynclusterd.Prelude.Int.{pos, negsuc}
use cbdynclusterd.Prelude.Dict.{lookup}
use cbdynclusterd.Prelude.Result.{failure, Result, ok, err, ok-injective}
use cbdynclusterd.Prelude.Join.{Schedule, IsSchedule}
use cbdynclusterd.Time.{Time, second, truncate_second, IsWritable}
use cbdynclusterd.Meta.{Storage, ClusterMetaJson}
use cbdynclusterd.Meta.Laws.{IsStorage}
use cbdynclusterd.Context.{Context, new_context, background}
use cbdynclusterd.Docker.{Docker, Container, ContainerConfig, EndpointSettings}
use cbdynclusterd.Clusters.{Daemon, short_id, label, cluster_id_label, creator_label, network_name}
use cbdynclusterd.Kill.{Choices}
use cbdynclusterd.Kill.Effect.{has_short, IsDocker}
use cbdynclusterd.Kill.Removal.{TellsLabel}
use cbdynclusterd.Kill.Cleanup.{IsChoices}

-- A time is written as one stroke for each second.
abbrev pub tally : ℕ → String
tally zero = ""
tally (suc n) = "|" ++ tally n

len-tally : (n : ℕ) → len (tally n) ≡ n
len-tally zero = refl
len-tally (suc n) = len-append "|" (tally n) ∙ ap (λ k. 1 + k) (len-tally n) ∙ omega arith

abbrev format_seconds : Time → String
format_seconds (pos n) = tally (n / second)
format_seconds (negsuc n) = ""

abbrev found : Option ClusterMetaJson → Result ClusterMetaJson
found none = err (failure "Key not found")
found (some v) = ok v

abbrev pub storage : Storage
storage = record {
  Bytes = ClusterMetaJson;
  Db = List (String × ClusterMetaJson);
  marshal = ok;
  unmarshal = ok;
  format_time = format_seconds;
  parse_time = λ s. ok (pos (len s * second));
  get = λ db k. found (lookup k db);
  set = λ db k v. ok ((k, v) ∷ db);
  commit = λ db view. ok view;
}

parse-format_seconds :
    (t : Time) → IsWritable t → pos (len (format_seconds t) * second) ≡ truncate_second t
parse-format_seconds (pos n) w = rw (len-tally (n / second))
parse-format_seconds (negsuc n) w = absurd w

pub storage-IsStorage : IsStorage storage
unfolding lookup
storage-IsStorage = record {
  get-set_self = λ db view k v h.
      subst (λ (d : storage.Db). storage.get d k ≡ ok v) (ok-injective h)
        (rw ((eq_iff k k).1 refl));
  get-set_ne = λ db view k j v h ne.
      subst (λ (d : storage.Db). storage.get d j ≡ storage.get db j) (ok-injective h)
        (ground (arith, eq_iff k j));
  get-commit = λ db view db' h k. ap (λ d. storage.get d k) (sym (ok-injective h));
  unmarshal-marshal = λ j b h. sym h;
  parse-format = λ t w. ap ok (parse-format_seconds t w);
}

abbrev eth0 : List (String × EndpointSettings)
eth0 = (network_name, record { ip_address = "10.0.0.7"; global_ipv6_address = "" }) ∷ []

abbrev created : ContainerConfig → Container
created config = record {
  id = config.container_name;
  names = ("/" ++ config.container_name) ∷ [];
  state = "created";
  labels = config.labels;
  networks = eth0;
}

-- Its pulls find no image, its builds succeed.
abbrev pub engine : Docker
engine = record {
  Engine = List Container;
  container_list = ok;
  container_stop = λ x cs. (ok tt, keep (λ c. not (has_short x c)) cs);
  container_create = λ config cs. (ok config.container_name, created config ∷ cs);
  container_start = λ id cs. (ok tt, cs);
  container_inspect = λ id cs. ok eth0;
  network_list = λ cs. ok (network_name ∷ []);
  image_pull = λ ref auth cs. (ok (ok (record { error = "manifest unknown" }) ∷ []), cs);
  image_push = λ ref auth cs. (ok [], cs);
  image_build = λ options cs. (ok (ok (record { error = "" }) ∷ []), cs);
}

pub engine-IsDocker : IsDocker engine
engine-IsDocker = record {
  list-stop = λ e e' cs x listed stopped.
      ap ok (sym (ap (λ p. p.1) stopped))
      ∙ ap (λ xs. ok (keep (λ c. not (has_short x c)) xs)) (ok-injective listed);
}

-- The first two change places.
abbrev pub swap_two {ℓ} : {A : Type ℓ} → List A → List A
swap_two [] = []
swap_two (x ∷ []) = x ∷ []
swap_two (x ∷ y ∷ xs) = y ∷ x ∷ xs

pub swap_two-Reorders {ℓ} : {A : Type ℓ} → Reorders (swap_two {A = A})
swap_two-Reorders [] = Permᴰ.nil
swap_two-Reorders (x ∷ []) = Permᴰ.cons refl Permᴰ.nil
swap_two-Reorders (x ∷ y ∷ xs) = Permᴰ.swap refl refl

abbrev pub swapping {ℓ} : {X : Type ℓ} → Schedule X
swapping = record { run = swap_two; receive = swap_two }

pub swapping-IsSchedule {ℓ} : {X : Type ℓ} → IsSchedule (swapping {X = X})
swapping-IsSchedule = record { run = swap_two-Reorders; receive = swap_two-Reorders }

abbrev pub choices : Choices
choices = record { order = swap_two; clusters = swapping; nodes = λ id. swapping }

pub choices-IsChoices : IsChoices choices
choices-IsChoices = record {
  order = swap_two-Reorders;
  clusters = swapping-IsSchedule;
  nodes = λ id. swapping-IsSchedule;
}

abbrev container : String → String → String → Container
container id cluster creator = record {
  id = id;
  names = ("/" ++ id) ∷ [];
  state = "running";
  labels = (cluster_id_label, cluster) ∷ (creator_label, creator) ∷ [];
  networks = eth0;
}

abbrev pub alice : String
alice = "alice@couchbase.com"

abbrev pub bob : String
bob = "bob@couchbase.com"

abbrev pub as_alice : Context
as_alice = new_context background alice false

-- Two containers of Alice's cluster, one of Bob's, and one that is no part of a cluster.
abbrev pub fleet : List Container
fleet =
    container "aaaaaaaaaaaa0001" "c1" alice
    ∷ container "bbbbbbbbbbbb0002" "c2" bob
    ∷ container "cccccccccccc0003" "c1" alice
    ∷ container "dddddddddddd0004" "" ""
    ∷ []

-- Alice's cluster lives until 5 s, Bob's until 90 s.
abbrev pub db : storage.Db
db =
    ("cluster-c1", record { owner = alice; timeout = "|||||" })
    ∷ ("cluster-c2", record { owner = bob; timeout = tally 90 })
    ∷ []

abbrev pub daemon : Daemon storage engine
daemon = record { db = db; engine = fleet; registered = [] }

-- Which cluster a short ID belongs to.
abbrev pub label_of : String → String
label_of x =
    if (x == "aaaaaaaaaaaa")
    then "c1"
    else if x == "bbbbbbbbbbbb"
    then "c2"
    else if x == "cccccccccccc"
    then "c1"
    else ""

tells :
    (c : Container) (y : String)
    → short_id c.id ≡ ok y
    → label_of y ≡ label cluster_id_label c
    → TellsLabel label_of c
tells c y short known x h =
    subst (λ z. label_of z ≡ label cluster_id_label c) (ok-injective (sym short ∙ h)) known

pub fleet-TellsLabel : All (TellsLabel label_of) fleet
unfolding short_id label lookup
fleet-TellsLabel = (
  tells (container "aaaaaaaaaaaa0001" "c1" alice) "aaaaaaaaaaaa" refl refl,
  (
    tells (container "bbbbbbbbbbbb0002" "c2" bob) "bbbbbbbbbbbb" refl refl,
    (
      tells (container "cccccccccccc0003" "c1" alice) "cccccccccccc" refl refl,
      (tells (container "dddddddddddd0004" "" "") "dddddddddddd" refl refl, tt),
    ),
  ),
)
