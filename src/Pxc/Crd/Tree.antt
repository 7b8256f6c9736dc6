-- ===== src/Pxc/Crd/Tree.antt =====
-- What a spec shows with everything that it leads to, the addresses that it leads to, and stores that
-- agree on them.
use mathlib.Core.Path.{subst}
use mysql_keeper.Prelude.{
  ℕ, ◌≤◌, ◌<◌, ◌≡◌, refl, ap, ◌∙◌, String, List, [], ◌∷◌, Bool, Option, none, some, arith,
}
use mysql_keeper.Pxc.Crd.{SourceHost, ReplicationChannel, PxcReplication, PxcSpec, Spec, Store, put}

-- What a spec shows, with everything that it leads to.
abbrev pub ChannelTree : Type 0
ChannelTree = String × Bool × Option (List SourceHost)

pub record SpecTree : Type 0 where
  pub pxc : Option PxcSpec
  pub replication : Option (Bool × Option (List ChannelTree))

abbrev pub look : {A : Type 0} → (ℕ → A) → Option ℕ → Option A
look f none = none
look f (some a) = some (f a)

abbrev pub channel_tree : Store → ReplicationChannel → ChannelTree
channel_tree s ch = (ch.name, ch.is_source, look s.source_arrays ch.sources_list)

abbrev pub each_tree : Store → List ReplicationChannel → List ChannelTree
each_tree s [] = []
each_tree s (ch ∷ chs) = channel_tree s ch ∷ each_tree s chs

abbrev pub channels_tree : Store → Option ℕ → Option (List ChannelTree)
channels_tree s none = none
channels_tree s (some a) = some (each_tree s (s.channel_arrays a))

abbrev pub replication_tree : Store → Option ℕ → Option (Bool × Option (List ChannelTree))
replication_tree s none = none
replication_tree s (some r) = some (
  PxcReplication.enabled (s.replications r),
  channels_tree s (PxcReplication.channels (s.replications r)),
)

abbrev pub tree : Store → Spec → SpecTree
tree s spec = record {
  pxc = look s.specs spec.pxc;
  replication = replication_tree s spec.replication;
}

-- Two stores have the same objects at the addresses of a region.
pub record Agree (P : ℕ → Type 0) (s t : Store) : Type 0 where
  pub on_specs : (a : ℕ) → P a → s.specs a ≡ t.specs a
  pub on_replications : (a : ℕ) → P a → s.replications a ≡ t.replications a
  pub on_channels : (a : ℕ) → P a → s.channel_arrays a ≡ t.channel_arrays a
  pub on_sources : (a : ℕ) → P a → s.source_arrays a ≡ t.source_arrays a

-- All that is led to stands in a region.
abbrev pub Within : (ℕ → Type 0) → Option ℕ → Type 0
Within P none = Unit
Within P (some a) = P a

abbrev pub EachLies : (ℕ → Type 0) → List ReplicationChannel → Type 0
EachLies P [] = Unit
EachLies P (ch ∷ chs) = Within P ch.sources_list × EachLies P chs

abbrev pub ChannelsLie : (ℕ → Type 0) → Store → Option ℕ → Type 0
ChannelsLie P s none = Unit
ChannelsLie P s (some a) = P a × EachLies P (s.channel_arrays a)

abbrev pub ReplicationLies : (ℕ → Type 0) → Store → Option ℕ → Type 0
ReplicationLies P s none = Unit
ReplicationLies P s (some r) = P r × ChannelsLie P s (PxcReplication.channels (s.replications r))

abbrev pub Lies : (ℕ → Type 0) → Store → Spec → Type 0
Lies P s spec = Within P spec.pxc × ReplicationLies P s spec.replication

module _ {P : ℕ → Type 0} {s t : Store} (same : Agree P s t) where
  pub look-same :
      {A : Type 0} (f g : ℕ → A)
      → ((a : ℕ) → P a → f a ≡ g a)
      → (o : Option ℕ) → Within P o
      → look f o ≡ look g o
  look-same f g h none w = refl
  look-same f g h (some a) w = ap some (h a w)

  pub each-same :
      (chs : List ReplicationChannel) → EachLies P chs → each_tree s chs ≡ each_tree t chs
  each-same [] w = refl
  each-same (ch ∷ chs) (w, ws) =
      let e = look-same s.source_arrays t.source_arrays same.on_sources ch.sources_list w in
      let ih = each-same chs ws in cc

  pub channels-same : (o : Option ℕ) → ChannelsLie P s o → channels_tree s o ≡ channels_tree t o
  channels-same none w = refl
  channels-same (some a) (w, ws) =
      ap some (each-same (s.channel_arrays a) ws ∙ ap (each_tree t) (same.on_channels a w))

  pub replication-same :
      (o : Option ℕ) → ReplicationLies P s o → replication_tree s o ≡ replication_tree t o
  replication-same none w = refl
  replication-same (some r) (w, ws) =
      ap (λ (cs : Option (List ChannelTree)). some (PxcReplication.enabled (s.replications r), cs))
        (channels-same (PxcReplication.channels (s.replications r)) ws)
      ∙ ap (λ (x : PxcReplication). some (x.enabled, channels_tree t x.channels))
          (same.on_replications r w)

  pub tree-same : (spec : Spec) → Lies P s spec → tree s spec ≡ tree t spec
  tree-same spec (w, ws) =
      let e = look-same s.specs t.specs same.on_specs spec.pxc w in
      let r = replication-same spec.replication ws in cc

-- A region grows, and stays led to.
module _ {P Q : ℕ → Type 0} (wider : (a : ℕ) → P a → Q a) where
  pub Within-wider : (o : Option ℕ) → Within P o → Within Q o
  Within-wider none w = tt
  Within-wider (some a) w = wider a w

  pub each-wider : (chs : List ReplicationChannel) → EachLies P chs → EachLies Q chs
  each-wider [] w = tt
  each-wider (ch ∷ chs) (w, ws) = (Within-wider ch.sources_list w, each-wider chs ws)

-- What lies in a region still does in a store that agrees on it.
module _ {P Q : ℕ → Type 0} {s t : Store} (same : Agree P s t) (wider : (a : ℕ) → P a → Q a) where
  pub channels_moved : (o : Option ℕ) → ChannelsLie P s o → ChannelsLie Q t o
  channels_moved none w = tt
  channels_moved (some a) (w, ws) = (
    wider a w,
    subst (λ cs. EachLies Q cs) (same.on_channels a w) (each-wider wider (s.channel_arrays a) ws),
  )

  pub replication_moved : (o : Option ℕ) → ReplicationLies P s o → ReplicationLies Q t o
  replication_moved none w = tt
  replication_moved (some r) (w, ws) = (
    wider r w,
    subst (λ (x : PxcReplication). ChannelsLie Q t x.channels) (same.on_replications r w)
        (channels_moved (PxcReplication.channels (s.replications r)) ws),
  )

-- A step that only adds objects, from the first free address on.
abbrev pub Below : ℕ → ℕ → Type 0
Below n a = a < n

abbrev pub Fresh : Store → Store → ℕ → Type 0
Fresh s t a = (s.next ≤ a) × (a < t.next)

pub record Extends (s t : Store) : Type 0 where
  pub grows : s.next ≤ t.next
  pub kept : Agree (Below s.next) s t

pub put_below : {A : Type 0} (f : ℕ → A) (n : ℕ) (v : A) (a : ℕ) → a < n → f a ≡ put f n v a
put_below f n v a h = ground arith

pub put_at : {A : Type 0} (f : ℕ → A) (n : ℕ) (v : A) → put f n v n ≡ v
put_at f n v = ground arith

pub Agree-self : (P : ℕ → Type 0) (s : Store) → Agree P s s
Agree-self P s = record {
  on_specs = λ a h. refl;
  on_replications = λ a h. refl;
  on_channels = λ a h. refl;
  on_sources = λ a h. refl;
}

pub Extends-self : (s : Store) → Extends s s
Extends-self s = record { grows = omega arith; kept = Agree-self (Below s.next) s }

pub Agree-trans : {P : ℕ → Type 0} {s t u : Store} → Agree P s t → Agree P t u → Agree P s u
Agree-trans h k = record {
  on_specs = λ a w. h.on_specs a w ∙ k.on_specs a w;
  on_replications = λ a w. h.on_replications a w ∙ k.on_replications a w;
  on_channels = λ a w. h.on_channels a w ∙ k.on_channels a w;
  on_sources = λ a w. h.on_sources a w ∙ k.on_sources a w;
}

pub Agree-within :
    {P Q : ℕ → Type 0} {s t : Store} → ((a : ℕ) → P a → Q a) → Agree Q s t → Agree P s t
Agree-within f h = record {
  on_specs = λ a w. h.on_specs a (f a w);
  on_replications = λ a w. h.on_replications a (f a w);
  on_channels = λ a w. h.on_channels a (f a w);
  on_sources = λ a w. h.on_sources a (f a w);
}

pub Extends-trans : {s t u : Store} → Extends s t → Extends t u → Extends s u
Extends-trans h k = record {
  grows = omega (arith, h.grows, k.grows);
  kept = Agree-trans h.kept (Agree-within (λ a w. omega (arith, h.grows)) k.kept);
}
