-- ===== src/Compression.antt =====
-- compression/compression.go: Gzip and Zlib, which differ in the format of the standard library alone.
pub mod Stages
pub mod Decoded
pub mod Delivered
pub mod Retried
mod Tests
use go_rabbitmq.Base.{
  ℕ, zero, suc, String, Bool, ◌||◌, Option, none, some, List, length, ltb, if◌then◌else◌,
}
use go_rabbitmq.Base.Int.{ℤ, pos, negsuc, ltb_ℤ}

-- `gzip` or `zlib` of the standard library: its name, what a writer of a level makes of some data once
-- it is closed, and what a reader gives. `none` is an error.
pub record Format : Type 0 where
  pub algorithm : String
  pub pack : ℤ → List ℕ → Option (List ℕ)
  pub unpack : List ℕ → Option (List ℕ)

pub record Compressor : Type 0 where
  pub threshold : ℕ
  pub level : ℤ

abbrev pub threshold_or_default : ℤ → ℕ
threshold_or_default (pos zero) = 1024
threshold_or_default (pos (suc n)) = suc n
threshold_or_default (negsuc n) = 1024

-- `BestSpeed` is 1, `BestCompression` 9 and `DefaultCompression` -1.
unfoldable pub new_compressor : ℤ → ℤ → Compressor
new_compressor threshold level = record {
  threshold = threshold_or_default threshold;
  level = if ltb_ℤ level (pos 1) || ltb_ℤ (pos 9) level then negsuc 0 else level;
}

abbrev pub smaller : List ℕ → Option (List ℕ) → Option (List ℕ)
smaller bytes none = none
smaller bytes (some packed) = some (if ltb (length packed) (length bytes) then packed else bytes)

unfoldable pub compress : Format → Compressor → List ℕ → Option (List ℕ)
compress f c bytes =
    if ltb (length bytes) c.threshold then some bytes else smaller bytes (f.pack c.level bytes)

unfoldable pub decompress : Format → List ℕ → Option (List ℕ)
decompress f bytes = f.unpack bytes
