-- ===== src/Examples/Baselines.antt =====
-- The baseline of the bundle with one image, given under the default name.
use diffah.Base.{false, none, [], ◌∷◌, refl}
use diffah.Base.Int.{pos}
use diffah.Diff.Errors.{ok}
use diffah.Importer.Manifest.{docker_schema2}
use diffah.Importer.Resolve.{Sources, Registry, rewrite_default_key, resolve_baselines}
use diffah.Importer.Resolve.Releases.{IsFresh, Releases, resolve_baselines-Releases}
use diffah.Examples.Imports.{site, image}

abbrev pub registry : Registry
registry = record {
  new_image_source = λ ref attempt. ok (λ d. ok []);
  get_manifest = λ ref attempt. ok (2 ∷ [], docker_schema2);
  ended = λ ref attempt. none;
  retry_times = pos 3;
  retry_delay = pos 0;
}

abbrev pub nothing_open : Sources
nothing_open = record { next = 0; live = λ h. false }

pub nothing_open-IsFresh : IsFresh nothing_open
nothing_open-IsFresh h le = refl

resolve_baselines_example :
    Releases site registry
      (rewrite_default_key (image ∷ []) (("default", "docker://r/old") ∷ []))
      (image ∷ [])
      nothing_open
      (resolve_baselines site registry
        (image ∷ [])
        (("default", "docker://r/old") ∷ [])
        false
        nothing_open)
resolve_baselines_example =
    resolve_baselines-Releases site registry (image ∷ []) (("default", "docker://r/old") ∷ []) false
      nothing_open nothing_open-IsFresh
