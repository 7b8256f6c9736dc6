-- ===== src/Pxc/Crd/Separate.antt =====
-- A deep copy shows what the original shows, and shares nothing with it.
use mathlib.Core.Path.{subst}
use mysql_keeper.Prelude.{
  ℕ, ◌≤◌, ◌≡◌, refl, ap, ◌∙◌, sym, List, [], ◌∷◌, Bool, Option, none, some, arith,
}
use mysql_keeper.Pxc.Crd.{
  SourceHost, ReplicationChannel, PxcReplication, PxcSpec, Spec, Store, copy_sources, copy_each,
  copy_channels, copy_replication, copy_pxc, deep_copy, new_channels, new_replication, new_spec,
}
use mysql_keeper.Pxc.Crd.Tree.{
  ChannelTree, SpecTree, look, each_tree, channels_tree, replication_tree, tree, Agree, Within,
  EachLies, ChannelsLie, ReplicationLies, Lies, look-same, each-same, channels-same,
  replication-same, tree-same, Within-wider, each-wider, Below, Fresh, Extends, put_below, put_at,
  Agree-self, Agree-trans, Agree-within, channels_moved, replication_moved, Extends-self,
  Extends-trans,
}

copy_sources-new :
    (o : Option ℕ) (s : Store)
    → (let (o', s') = copy_sources o s in
        Extends s s' × Within (Fresh s s') o' × (look s'.source_arrays o' ≡ look s.source_arrays o))
unfolding copy_sources
copy_sources-new none s = (Extends-self s, tt, refl)
copy_sources-new (some a) s = (
  record {
    grows = omega arith;
    kept = record {
      on_specs = λ b h. refl;
      on_replications = λ b h. refl;
      on_channels = λ b h. refl;
      on_sources = put_below s.source_arrays s.next (s.source_arrays a);
    };
  },
  (omega arith, omega arith),
  ap some (put_at s.source_arrays s.next (s.source_arrays a)),
)

both :
    (ch : ReplicationChannel) {x y : Option (List SourceHost)} {ts us : List ChannelTree}
    → x ≡ y
    → ts ≡ us
    → ◌≡◌ {A = List ChannelTree} ((ch.name, ch.is_source, x) ∷ ts) ((ch.name, ch.is_source, y) ∷ us)
both ch e f = cc

same_tree :
    {x y : Option PxcSpec} {u v : Option (Bool × Option (List ChannelTree))}
    → x ≡ y
    → u ≡ v
    → ◌≡◌ {A = SpecTree} (record { pxc = x; replication = u }) (record { pxc = y; replication = v })
same_tree e f = cc

copy_each-new :
    (chs : List ReplicationChannel) (s : Store)
    → EachLies (Below s.next) chs
    → (let (chs', s') = copy_each chs s in
        Extends s s' × EachLies (Fresh s s') chs' × (each_tree s' chs' ≡ each_tree s chs))
unfolding copy_each
copy_each-new [] s h = (Extends-self s, tt, refl)
copy_each-new (ch ∷ chs) s (h, hs) =
    let (o, s1) = copy_sources ch.sources_list s in
    let (ext1, new1, shown1) = copy_sources-new ch.sources_list s in
    let (rest, s2) = copy_each chs s1 in
    let (ext2, new2, shown2) =
      copy_each-new chs s1 (each-wider (λ a w. omega (arith, ext1.grows)) chs hs) in
    let head =
      look-same ext2.kept s1.source_arrays s2.source_arrays (Agree.on_sources ext2.kept) o
        (Within-wider (λ a w. w.1) o new1) in
    let others = each-same ext1.kept chs hs in
    (
      Extends-trans ext1 ext2,
      (
        Within-wider (λ a w. (w.0, omega (arith, w.1, ext2.grows))) o new1,
        each-wider (λ a w. (omega (arith, w.0, ext1.grows), w.1)) rest new2,
      ),
      both ch (sym head ∙ shown1) (shown2 ∙ sym others),
    )

-- A new object changes nothing that was there.
channels_put : (s : Store) (v : List ReplicationChannel) → Extends s (new_channels v s).1
channels_put s v = record {
  grows = omega arith;
  kept = record {
    on_specs = λ b h. refl;
    on_replications = λ b h. refl;
    on_channels = put_below s.channel_arrays s.next v;
    on_sources = λ b h. refl;
  };
}

replications_put : (s : Store) (v : PxcReplication) → Extends s (new_replication v s).1
replications_put s v = record {
  grows = omega arith;
  kept = record {
    on_specs = λ b h. refl;
    on_replications = put_below s.replications s.next v;
    on_channels = λ b h. refl;
    on_sources = λ b h. refl;
  };
}

specs_put : (s : Store) (v : PxcSpec) → Extends s (new_spec v s).1
specs_put s v = record {
  grows = omega arith;
  kept = record {
    on_specs = put_below s.specs s.next v;
    on_replications = λ b h. refl;
    on_channels = λ b h. refl;
    on_sources = λ b h. refl;
  };
}

copy_channels-new :
    (o : Option ℕ) (s : Store)
    → ChannelsLie (Below s.next) s o
    → (let (o', s') = copy_channels o s in
        Extends s s' × ChannelsLie (Fresh s s') s' o' × (channels_tree s' o' ≡ channels_tree s o))
unfolding copy_channels
copy_channels-new none s h = (Extends-self s, tt, refl)
copy_channels-new (some a) s (h, hs) =
    let (chs, s1) = copy_each (s.channel_arrays a) s in
    let (ext, new, shown) = copy_each-new (s.channel_arrays a) s hs in
    let s2 = (new_channels chs s1).1 in
    let ext2 = channels_put s1 chs in
    let there = put_at s1.channel_arrays s1.next chs in
    (
      Extends-trans ext ext2,
      (
        (ext.grows, omega arith),
        subst (λ cs. EachLies (Fresh s s2) cs) (sym there)
            (each-wider (λ a w. (w.0, omega (arith, w.1))) chs new),
      ),
      ap some (
          ap (each_tree s2) there
          ∙ (sym (each-same ext2.kept chs (each-wider (λ a w. w.1) chs new)) ∙ shown)),
    )

copy_replication-new :
    (o : Option ℕ) (s : Store)
    → ReplicationLies (Below s.next) s o
    → (let (o', s') = copy_replication o s in
        Extends s s'
        × ReplicationLies (Fresh s s') s' o'
        × (replication_tree s' o' ≡ replication_tree s o))
unfolding copy_replication
copy_replication-new none s h = (Extends-self s, tt, refl)
copy_replication-new (some r) s (h, hs) =
    let cell = s.replications r in
    let (o, s1) = copy_channels cell.channels s in
    let (ext, new, shown) = copy_channels-new cell.channels s hs in
    let v : PxcReplication = record cell { channels = o } in
    let s2 = (new_replication v s1).1 in
    let ext2 = replications_put s1 v in
    let there = put_at s1.replications s1.next v in
    (
      Extends-trans ext ext2,
      (
        (ext.grows, omega arith),
        subst (λ (x : PxcReplication). ChannelsLie (Fresh s s2) s2 x.channels) (sym there)
            (channels_moved (Agree-within (λ a w. w.1) ext2.kept) (λ a w. (w.0, omega (arith, w.1)))
              o new),
      ),
      ap (λ (x : PxcReplication). some (x.enabled, channels_tree s2 x.channels)) there
          ∙ ap (λ cs. some (cell.enabled, cs))
              (sym (
                  channels-same ext2.kept o
                    (channels_moved (Agree-self (Fresh s s1) s1) (λ a w. w.1) o new))
                ∙ shown),
    )

copy_pxc-new :
    (o : Option ℕ) (s : Store)
    → (let (o', s') = copy_pxc o s in
        Extends s s' × Within (Fresh s s') o' × (look s'.specs o' ≡ look s.specs o))
unfolding copy_pxc
copy_pxc-new none s = (Extends-self s, tt, refl)
copy_pxc-new (some a) s = (
  specs_put s (s.specs a),
  (omega arith, omega arith),
  ap some (put_at s.specs s.next (s.specs a)),
)

deep_copy-new :
    (spec : Spec) (s : Store)
    → Lies (Below s.next) s spec
    → (let (copy, s') = deep_copy spec s in
        Extends s s' × Lies (Fresh s s') s' copy × (tree s' copy ≡ tree s spec))
unfolding deep_copy
deep_copy-new spec s (h, hs) =
    let (p, s1) = copy_pxc spec.pxc s in
    let (ext1, new1, shown1) = copy_pxc-new spec.pxc s in
    let (r, s2) = copy_replication spec.replication s1 in
    let (ext2, new2, shown2) =
      copy_replication-new spec.replication s1
        (replication_moved ext1.kept (λ a w. omega (arith, ext1.grows)) spec.replication hs) in
    let head =
      look-same ext2.kept s1.specs s2.specs (Agree.on_specs ext2.kept) p
        (Within-wider (λ a w. w.1) p new1) in
    let others = replication-same ext1.kept spec.replication hs in
    (
      Extends-trans ext1 ext2,
      (
        Within-wider (λ a w. (w.0, omega (arith, w.1, ext2.grows))) p new1,
        replication_moved (Agree-self (Fresh s1 s2) s2)
            (λ a w. (omega (arith, w.0, ext1.grows), w.1)) r new2,
      ),
      same_tree (sym head ∙ shown1) (shown2 ∙ sym others),
    )

-- For a spec whose pointers and slices lead only to objects of the store: its deep copy shows what
-- the spec shows; it still does in any store that agrees with the one after the copy on the
-- addresses that were free before it, whatever was written to the others; and the spec shows what
-- it did in any store that agrees with the one after the copy on the addresses that were in use.
pub deep_copy-separate :
    (spec : Spec) (s t : Store)
    → Lies (Below s.next) s spec
    → (let (copy, s') = deep_copy spec s in
        (tree s' copy ≡ tree s spec)
        × (Agree (λ a. s.next ≤ a) s' t → tree t copy ≡ tree s spec)
        × (Agree (Below s.next) s' t → tree t spec ≡ tree s spec))
deep_copy-separate spec s t h =
    let (ext, new, shown) = deep_copy-new spec s h in
    (
      shown,
      λ same.
          sym (
            tree-same (Agree-within {P = Fresh s (deep_copy spec s).1} (λ a w. w.0) same)
              (deep_copy spec s).0 new)
          ∙ shown,
      λ same. sym (tree-same (Agree-trans ext.kept same) spec h),
    )
