-- ===== src/Tests/Emode.antt =====
-- Two banks that offer e-mode for one tag, and two configurations of entries.
use bot_flash_loan.Prelude.{
  ℕ, zero, suc, ◌^◌, ◌≡◌, refl, false, [], ◌∷◌, Every, every_none, every_next, ok, arith,
}
use bot_flash_loan.Prelude.Int.{pos}
use bot_flash_loan.Marginfi.Emode.{
  EmodeEntry, EmodeConfig, padding, tag_equals, find_with_tag, reconcile_emode_configs,
  reconcile_emode_configs_classic,
}
use bot_flash_loan.Marginfi.Emode.Merging.{Deduped, deduped_none, deduped_empty, deduped_next}
use bot_flash_loan.Marginfi.Emode.Survivors.{ascending_none, ascending_next}
use bot_flash_loan.Marginfi.Emode.Shared.{
  Wellformed, shared_entry, reconcile_emode_configs-shared_entry,
}
use bot_flash_loan.Marginfi.Emode.Classic.{Canonical, reconcile_emode_configs-classic}

abbrev stable_entry : EmodeEntry
stable_entry = record {
  collateral_bank_emode_tag = 101;
  flags = 1;
  asset_weight_init = pos (2 ^ 47);
  asset_weight_maint = pos (2 ^ 48);
}

abbrev other_entry : EmodeEntry
other_entry = record {
  collateral_bank_emode_tag = 101;
  flags = 0;
  asset_weight_init = pos (2 ^ 46);
  asset_weight_maint = pos (2 ^ 49);
}

abbrev stable : EmodeConfig
stable = record { entries = stable_entry ∷ padding 9 }

abbrev other : EmodeConfig
other = record { entries = other_entry ∷ padding 9 }

padding-Deduped : (n : ℕ) → Deduped (padding n)
unfolding padding
padding-Deduped zero = deduped_none
padding-Deduped (suc n) = deduped_empty refl (padding-Deduped n)

padding-others : (n : ℕ) → Every (λ f. tag_equals f 101 ≡ false) (padding n)
unfolding padding
padding-others zero = every_none
padding-others (suc n) = every_next refl (padding-others n)

wellformed :
    (e : EmodeEntry)
    → e.collateral_bank_emode_tag ≡ 101
    → Wellformed (record { entries = e ∷ padding 9 })
unfolding padding
wellformed e h = record {
  full = refl;
  deduped = deduped_next (rw (h) (padding-others 9)) (padding-Deduped 9);
}

reconcile_emode_configs-shared_entry_example :
    (r : EmodeConfig) × (reconcile_emode_configs (stable ∷ other ∷ []) ≡ ok r)
    × (find_with_tag r 101 ≡ shared_entry 101 (stable ∷ other ∷ []))
reconcile_emode_configs-shared_entry_example =
    reconcile_emode_configs-shared_entry stable (other ∷ []) 101 (omega arith) (
      every_next (wellformed stable_entry refl)
        (every_next (wellformed other_entry refl) every_none))

canonical :
    (e : EmodeEntry)
    → e.collateral_bank_emode_tag ≡ 101
    → Canonical (record { entries = e ∷ padding 9 })
canonical e h = record {
  used = e ∷ [];
  few = omega arith;
  ascending = ascending_next every_none ascending_none;
  tagged = every_next (omega (arith, h)) every_none;
  entries_are = refl;
}

reconcile_emode_configs-classic_example :
    reconcile_emode_configs (stable ∷ other ∷ [])
    ≡ reconcile_emode_configs_classic (stable ∷ other ∷ [])
reconcile_emode_configs-classic_example =
    reconcile_emode_configs-classic (stable ∷ other ∷ []) (
      every_next (canonical stable_entry refl) (every_next (canonical other_entry refl) every_none))
