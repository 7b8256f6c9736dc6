-- ===== src/Pxc/Crd.antt =====
-- internal/pxc/types.go: the spec of a PerconaXtraDBCluster, with its pointers and slices, and the deep
-- copies that are written by hand. A store has the objects that a pointer or a slice leads to, by
-- their address, and the first address that is free; nil is `none`, and a slice is a whole array.
pub mod Tree
pub mod Separate
mod Tests
use mysql_keeper.Prelude.{
  ℕ, suc, String, List, [], ◌∷◌, Bool, Option, none, some, if◌then◌else◌, ◌==◌,
}
use mysql_keeper.Prelude.Int.{ℤ}
use mysql_keeper.Prelude.State.{State, pure, ◌>>=◌, ◌>>◌}

pub record SourceHost : Type 0 where
  pub host : String
  pub port : ℤ
  pub weight : ℤ

pub record ReplicationChannel : Type 0 where
  pub name : String
  pub is_source : Bool
  pub sources_list : Option ℕ

pub record PxcReplication : Type 0 where
  pub enabled : Bool
  pub channels : Option ℕ

pub record PxcSpec : Type 0 where
  pub size : ℤ

pub record Spec : Type 0 where
  pub pxc : Option ℕ
  pub replication : Option ℕ

pub record Store : Type 0 where
  pub specs : ℕ → PxcSpec
  pub replications : ℕ → PxcReplication
  pub channel_arrays : ℕ → List ReplicationChannel
  pub source_arrays : ℕ → List SourceHost
  pub next : ℕ

abbrev pub S : Type 0 → Type 0
S A = State Store A

abbrev pub put : {A : Type 0} → (ℕ → A) → ℕ → A → ℕ → A
put f a v b = if b == a then v else f b

-- A new object of each kind.
abbrev pub new_spec : PxcSpec → S ℕ
new_spec v s = (s.next, record s { specs = put s.specs s.next v; next = suc s.next })

abbrev pub new_replication : PxcReplication → S ℕ
new_replication v s =
    (s.next, record s { replications = put s.replications s.next v; next = suc s.next })

abbrev pub new_channels : List ReplicationChannel → S ℕ
new_channels v s =
    (s.next, record s { channel_arrays = put s.channel_arrays s.next v; next = suc s.next })

abbrev pub new_sources : List SourceHost → S ℕ
new_sources v s =
    (s.next, record s { source_arrays = put s.source_arrays s.next v; next = suc s.next })

-- What a pointer or a slice leads to.
abbrev pub load : {A : Type 0} → (Store → ℕ → A) → ℕ → S A
load table a s = (table s a, s)

-- `if ch.SourcesList != nil { … copy(…) }`
unfoldable pub copy_sources : Option ℕ → S (Option ℕ)
copy_sources none = pure none
copy_sources (some a) = do
  sources ← load Store.source_arrays a
  b ← new_sources sources
  pure (some b)

-- `for i, ch := range in.Replication.Channels`
unfoldable pub copy_each : List ReplicationChannel → S (List ReplicationChannel)
unfolding copy_sources
copy_each [] = pure []
copy_each (ch ∷ chs) = do
  sources ← copy_sources ch.sources_list
  rest ← copy_each chs
  pure (record ch { sources_list = sources } ∷ rest)

unfoldable pub copy_channels : Option ℕ → S (Option ℕ)
unfolding copy_each
copy_channels none = pure none
copy_channels (some a) = do
  chs ← load Store.channel_arrays a
  copies ← copy_each chs
  b ← new_channels copies
  pure (some b)

unfoldable pub copy_replication : Option ℕ → S (Option ℕ)
unfolding copy_channels
copy_replication none = pure none
copy_replication (some r) = do
  cell ← load Store.replications r
  channels ← copy_channels cell.channels
  b ← new_replication (record cell { channels = channels })
  pure (some b)

unfoldable pub copy_pxc : Option ℕ → S (Option ℕ)
copy_pxc none = pure none
copy_pxc (some p) = do cell ← load Store.specs p; b ← new_spec cell; pure (some b)

-- PerconaXtraDBClusterSpec.DeepCopyInto
unfoldable pub deep_copy : Spec → S Spec
unfolding copy_pxc copy_replication
deep_copy spec = do
  pxc ← copy_pxc spec.pxc
  replication ← copy_replication spec.replication
  pure (record { pxc = pxc; replication = replication })

-- The specs of the items of a list.
unfoldable pub deep_copy_items : List Spec → S (List Spec)
unfolding deep_copy
deep_copy_items [] = pure []
deep_copy_items (spec ∷ specs) = do
  copy ← deep_copy spec
  rest ← deep_copy_items specs
  pure (copy ∷ rest)
