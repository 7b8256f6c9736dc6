-- ===== src/Pxc/Crd/Tests.antt =====
-- A spec with one channel, its copy, and the original patched after that.
use mysql_keeper.Prelude.{◌≤◌, ◌≡◌, refl, [], ◌∷◌, some, true, false, arith}
use mysql_keeper.Prelude.Int.{pos}
use mysql_keeper.Pxc.Crd.{SourceHost, ReplicationChannel, Spec, Store, put, deep_copy}
use mysql_keeper.Pxc.Crd.Tree.{tree, Agree, Below}
use mysql_keeper.Pxc.Crd.Separate.{deep_copy-separate}

abbrev source : SourceHost
source = record { host = "dc"; port = pos 3306; weight = pos 100 }

abbrev channel : ReplicationChannel
channel = record { name = "dc-to-dr"; is_source = false; sources_list = some 3 }

abbrev store : Store
store = record {
  specs = λ a. record { size = pos 3 };
  replications = λ a. record { enabled = true; channels = some 2 };
  channel_arrays = λ a. channel ∷ [];
  source_arrays = λ a. source ∷ [];
  next = 4;
}

abbrev spec : Spec
spec = record { pxc = some 0; replication = some 1 }

abbrev patched : Store
patched =
    let copied = (deep_copy spec store).1 in
    record copied {
      channel_arrays = put copied.channel_arrays 2 (record channel { is_source = true } ∷ []);
    }

deep_copy-separate_example :
    (tree (deep_copy spec store).1 (deep_copy spec store).0 ≡ tree store spec)
    × (Agree (λ a. 4 ≤ a) (deep_copy spec store).1 patched
        → tree patched (deep_copy spec store).0 ≡ tree store spec)
    × (Agree (Below 4) (deep_copy spec store).1 patched → tree patched spec ≡ tree store spec)
deep_copy-separate_example = deep_copy-separate spec store patched (omega arith)

-- The patch reaches the original alone.
patched-agrees : Agree (λ a. 4 ≤ a) (deep_copy spec store).1 patched
patched-agrees = record {
  on_specs = λ a h. refl;
  on_replications = λ a h. refl;
  on_channels = λ a h. ground arith;
  on_sources = λ a h. refl;
}

patch-keeps_copy : tree patched (deep_copy spec store).0 ≡ tree store spec
patch-keeps_copy = (deep_copy-separate spec store patched (omega arith)).1 patched-agrees
