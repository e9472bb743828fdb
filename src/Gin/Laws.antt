-- ===== src/Gin/Laws.antt =====
-- What a key holds after a write.
use prompt_sdk.Prelude.{◌≡◌, refl, some, if◌then◌else◌}
use prompt_sdk.Gin.{Key, Value, Context, key_eq, set}

pub keys-set :
    (c : Context) (k j : Key) (v : Value)
    → (set c k v).keys j ≡ (if key_eq k j then some v else c.keys j)
unfolding set
keys-set c k j v = refl
