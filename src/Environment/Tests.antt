-- ===== src/Environment/Tests.antt =====
-- Runs of internal/environment/resolver.go.
use platformfoundry_ce.Base.{◌≡◌, refl, [], ◌∷◌, some, none}
use mathlib.Core.List.Perm
use platformfoundry_ce.Base.Maps.{lookup, insert, flag, keys, RangeOrder, VisitsAll}
use platformfoundry_ce.EdgeSearch.{found, enter, leave}
use platformfoundry_ce.Environment.Resolver.{
  Heap, text, Overrides, Environment, Platform, read, write, made, annotate, other_fields,
  merge_tags, region_of, all_annotations, apply_tags, apply_overrides, set_labels, resolve,
}
use platformfoundry_ce.Environment.Chain.{
  add_promotion, promotion_map, detect_promotion_cycle, check_from, validate_environment_chain,
}
use platformfoundry_ce.Environment.Sharing.{resolve_shares_labels}
use platformfoundry_ce.Environment.Promotion.{DecidesChain, validate_environment_chain-DecidesChain}

abbrev as_listed : RangeOrder
as_listed n ks = ks

abbrev as_listed-VisitsAll : VisitsAll as_listed
as_listed-VisitsAll n ks = Perm.refl ks

program : Unit {0}
unfolding lookup insert flag keys enter leave read write made annotate other_fields merge_tags
    region_of all_annotations apply_tags apply_overrides set_labels resolve add_promotion
    promotion_map detect_promotion_cycle check_from validate_environment_chain
program = tt

abbrev nothing : Overrides
nothing = record {
  infrastructure = [];
  orchestrator = [];
  observability = [];
  devex = [];
  global = [];
  tags = [];
}

abbrev dev : Environment
dev = record {
  name = "dev";
  environment_type = "development";
  overrides = record nothing {
    infrastructure = ("size", text "small") ∷ [];
    global = ("region", text "eu-west-1") ∷ ("tier", text "low") ∷ [];
    tags = ("owner", "team-a") ∷ [];
  };
  promotes_to = some "prod";
}

abbrev prod : Environment
prod = record {
  name = "prod";
  environment_type = "production";
  overrides = nothing;
  promotes_to = some "dev";
}

abbrev heap : Heap
heap = record { next = 1; cells = λ r. ("team", "core") ∷ [] }

abbrev platform : Platform
platform = record {
  environment = "";
  region = "us-east-1";
  labels = some 0;
  annotations = none;
  tags = none;
}

resolve-region : (resolve as_listed (some dev) platform heap).0.region ≡ "eu-west-1"
unfolding program
resolve-region = refl

resolve-annotations :
    read
      (resolve as_listed (some dev) platform heap).1
      (resolve as_listed (some dev) platform heap).0.annotations
    ≡ ("env.override.tier", "low") ∷ ("env.infrastructure.size", "small") ∷ []
unfolding program
resolve-annotations = refl

resolve-tags :
    read
      (resolve as_listed (some dev) platform heap).1
      (resolve as_listed (some dev) platform heap).0.tags
    ≡ ("owner", "team-a") ∷ []
unfolding program
resolve-tags = refl

looped_chain : validate_environment_chain as_listed (dev ∷ prod ∷ []) ≡ found "prod" "dev"
unfolding program
looped_chain = refl

resolve_shares_labels_example :
    let r : Platform × Heap = resolve as_listed (some dev) platform heap in
    let h' : Heap = (resolve as_listed (some prod) platform r.1).1 in
    (lookup "environment" (read r.1 platform.labels) ≡ some "development")
    × (lookup "environment" (read h' platform.labels) ≡ some "production")
    × (lookup "environment" (read h' r.0.labels) ≡ some "production")
resolve_shares_labels_example = resolve_shares_labels as_listed dev prod platform heap 0 refl

validate_environment_chain-DecidesChain_example :
    DecidesChain
      (promotion_map (dev ∷ prod ∷ []) [])
      (validate_environment_chain as_listed (dev ∷ prod ∷ []))
validate_environment_chain-DecidesChain_example =
    validate_environment_chain-DecidesChain as_listed as_listed-VisitsAll (dev ∷ prod ∷ [])
