-- ===== src/Tests/Reached.antt =====
-- A service that has mounted a segment and taken a put, and the file name of a key.
use mooncake.Segment.Invariant.{IsWellFormed}
use mooncake.Prelude.{◌≡◌, refl, String, ℕ, [], ◌∷◌}
use mooncake.Master.{Master, make_service}
use mooncake.Master.Mount.{mount}
use mooncake.Master.Put.{put_start}
use mooncake.Master.Requests.{begin, next, mounts, starts, Reachable-IsWellFormed}
use mooncake.Master.Path.{sanitize_key}
use mooncake.Master.Path.Clean.{IsSanitized, sanitize_key_lem}
use mooncake.Tests.Data.{env, thousandths, config, here, anna, put_config}

abbrev fresh : Master (ℕ × ℕ)
fresh = make_service config 0

abbrev grown : Master (ℕ × ℕ)
grown = (mount env fresh here anna).1

abbrev used : Master (ℕ × ℕ)
used = (put_start env grown "key" (100 ∷ []) put_config).1

Reachable-IsWellFormed_example : IsWellFormed used.segments
Reachable-IsWellFormed_example = Reachable-IsWellFormed env thousandths used (
    next grown used (next fresh grown (begin config 0) (mounts fresh here anna))
      (starts grown "key" (100 ∷ []) put_config))

abbrev path_key : String
path_key = "model/layer:3"

sanitize_key_example :
    IsSanitized path_key (sanitize_key path_key)
    × (sanitize_key (sanitize_key path_key) ≡ sanitize_key path_key)
sanitize_key_example = sanitize_key_lem path_key

-- The slash and the colon have become underscores.
sanitized : sanitize_key path_key ≡ "model_layer_3"
unfolding sanitize_key
sanitized = refl
