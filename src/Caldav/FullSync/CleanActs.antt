-- ===== src/Caldav/FullSync/CleanActs.antt =====
-- Which acts the deletions of the orphans and of the duplicates on the destination, and the records of
-- the UIDs, may make in SyncEngine.fullSync, and what they leave of the source's map.
use calbridge.Common.{
  ℕ, ◌+◌, refl, inl, inr, Text, List, [], ◌∷◌, Option, none, some, Bool, ◌&&◌, eqb, if◌then◌else◌,
  Bool-cases,
}
use calbridge.Common.Dict.{Dict}
use calbridge.Activity.{Counts}
use calbridge.Caldav.{Event, Source, SyncDirection, is_one_way, is_source_wins}
use calbridge.Caldav.FullSync.{remember_uids}
use calbridge.Caldav.World.{
  Env, State, Act, delete_dest, progress, remember, after, failure, Reply, ok, err,
}
use calbridge.Caldav.FullSync.Push.{orphan_deleted, delete_orphans, one_way_orphans}
use calbridge.Caldav.FullSync.Duplicates.{
  delete_others, clean_groups, cleanup_duplicates, group_events, find_keep, count_removed,
  clean_listed,
}
use calbridge.Caldav.FullSync.PushActs.{Within, Within-refl, Within-trans}

module _ (P : Act → Type 0) (p_progress : (n : Counts) → P (progress n)) (env : Env) where
  module _ (p_delete : (p : Text) → P (delete_dest p)) where
    pub orphan_deleted-Within : (o : Option Text) (t : State) → Within P t (orphan_deleted o t)
    unfolding orphan_deleted
    orphan_deleted-Within none t = record {
      acts = λ h. (p_progress _, h);
      source = refl;
      keeps = λ b i. inr i;
      order = λ c b i. inr i;
    }
    orphan_deleted-Within (some m) t = record {
      acts = λ h. h;
      source = refl;
      keeps = λ b i. i;
      order = λ c b i. i;
    }

    pub delete-Within : (path : Text) (s : State) → Within P s (after (delete_dest path) s)
    delete-Within path s = record {
      acts = λ h. (p_delete path, h);
      source = refl;
      keeps = λ b i. inr i;
      order = λ c b i. inr i;
    }

    pub delete_orphans-Within : (d : Dict Event) (s : State) → Within P s (delete_orphans env d s)
    unfolding delete_orphans
    delete_orphans-Within [] s = Within-refl s
    delete_orphans-Within ((uid, e) ∷ rest) s = Within-trans (delete-Within e.path s) (
        Within-trans (orphan_deleted-Within (failure env (delete_dest e.path) s) _)
          (delete_orphans-Within rest _))

    pub one_way_orphans-Within :
        (source : Source) (direction : SyncDirection) (s : State)
        → Within P s (one_way_orphans env source direction s)
    unfolding one_way_orphans
    one_way_orphans-Within source direction s =
        elim (Bool-cases (is_one_way direction && is_source_wins source.conflict_strategy)) [
          | inl h ↦ rw h (delete_orphans-Within (env.visit_events s.dest_map) s)
          | inr h ↦ rw h (Within-refl s)
        ]

    pub count_removed-Within : (o : Option Text) (t : State) → Within P t (count_removed o t)
    unfolding count_removed
    count_removed-Within none t = record {
      acts = λ h. h;
      source = refl;
      keeps = λ b i. i;
      order = λ c b i. i;
    }
    count_removed-Within (some m) t = record {
      acts = λ h. h;
      source = refl;
      keeps = λ b i. i;
      order = λ c b i. i;
    }

    pub delete_others-Within :
        (keep i : ℕ) (es : List Event) (s : State) → Within P s (delete_others env keep i es s)
    unfolding delete_others
    delete_others-Within keep i [] s = Within-refl s
    delete_others-Within keep i (e ∷ es) s =
        Within-trans first (delete_others-Within keep (i + 1) es _)
      where
        first : Within P s (
            if eqb i keep
            then s
            else count_removed (failure env (delete_dest e.path) s) (after (delete_dest e.path) s))
        first = elim (Bool-cases (eqb i keep)) [
          | inl h ↦ rw h (Within-refl s)
          | inr h ↦ rw h (
              Within-trans (delete-Within e.path s)
                (count_removed-Within _ (after (delete_dest e.path) s)))
        ]

    pub clean_groups-Within :
        (d : Dict (List Event)) (s : State) → Within P s (clean_groups env d s)
    unfolding clean_groups
    clean_groups-Within [] s = Within-refl s
    clean_groups-Within ((key, []) ∷ rest) s = clean_groups-Within rest s
    clean_groups-Within ((key, e ∷ []) ∷ rest) s = clean_groups-Within rest s
    clean_groups-Within ((key, e ∷ f ∷ es) ∷ rest) s =
        Within-trans (delete_others-Within (find_keep s.source_map 0 (e ∷ f ∷ es)) 0 (e ∷ f ∷ es) s)
          (clean_groups-Within rest _)

    pub cleanup_duplicates-Within :
        (dest_path : Text) (s : State) → Within P s (cleanup_duplicates env dest_path s)
    unfolding cleanup_duplicates
    cleanup_duplicates-Within dest_path s = listed (env.dest_events s.acts dest_path)
      where
        listed : (r : Reply (List Event)) → Within P s (clean_listed env r s)
        listed (err m) = Within-refl s
        listed (ok es) = clean_groups-Within (env.visit_groups (group_events es [])) s

  pub remember_uids-Within :
      ((u : Text) → P (remember u)) → (d : Dict Bool) (s : State) → Within P s (remember_uids d s)
  unfolding remember_uids
  remember_uids-Within h [] s = Within-refl s
  remember_uids-Within h ((uid, b) ∷ rest) s =
      Within-trans
        (record {
          acts = λ a. (h uid, a);
          source = refl;
          keeps = λ b i. inr i;
          order = λ c b i. inr i;
        })
        (remember_uids-Within h rest _)
