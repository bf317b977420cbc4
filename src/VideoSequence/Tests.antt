-- ===== src/VideoSequence/Tests.antt =====
-- Runs of the fingerprint code, and its theorems at concrete inputs.
use sooqa.Prelude.{
  ℕ, ◌*◌, ◌<◌, ◌≤◌, ◌≡◌, ◌↔◌, refl, arith, List, [], ◌∷◌, ◌++◌, some, length, get_elem?, div_ceil,
  ok, err,
}
use sooqa.Prelude.Int.{pos, negsuc}
use sooqa.VideoSequence.Defs.{
  Sample, Fingerprint, FingerprintFits, video_sequence_v1, grid_interval, max_samples,
  validate_grid, validate_samples, new, trailing_bytes, invalid_timestamp_grid,
}
use sooqa.VideoSequence.Grid.{
  video_sequence_interval_ms, select_video_sequence_timestamps, timestamps_loop,
}
use sooqa.VideoSequence.Grid.Timestamps.{timestamps_grid, validate_grid_iff}
use sooqa.VideoSequence.Codec.{
  encode_sample, encode_samples, encode_header, encode, decode, read_samples, read_sample,
  read_word, read_u8,
}
use sooqa.VideoSequence.Codec.RoundTrip.{decode-encode}
use sooqa.VideoSequence.Codec.Canonical.{encode-decode}
use sooqa.VideoSequence.Tokens.{
  derive_search_tokens, anchors_from, insert_by, sort_by, token_loop, append_hash_tokens, dedup,
  max_tokens,
}
use sooqa.Prelude.{All}
use sooqa.VideoSequence.Tokens.Order.{Rises, IsToken, derive_search_tokens-Rises}

abbrev bright : Sample
bright = record {
  phash = 0x0123456789abcdef;
  dhash = 0xfedcba9876543210;
  mean_luma = 200;
  mean_chroma_u = pos 4;
  mean_chroma_v = negsuc 5;
  information_bps = 8000;
  transition_bps = 0;
}

abbrev moved : Sample
moved = record bright { transition_bps = 1200 }

abbrev two : Fingerprint
two = record {
  version = video_sequence_v1;
  duration_ms = 700;
  interval_ms = 500;
  samples = bright ∷ moved ∷ [];
}

abbrev written : List ℕ
unfolding encode_header encode_samples encode_sample
written = encode_header two ++ encode_samples two.samples

select_1200 : select_video_sequence_timestamps 1200 ≡ 0 ∷ 500 ∷ 1000 ∷ []
unfolding select_video_sequence_timestamps timestamps_loop
select_1200 = refl

encode_of_both : encode two ≡ ok written
unfolding encode validate_grid validate_samples written encode_header
encode_of_both = refl

decode_of_both : decode written ≡ ok two
unfolding written decode read_samples read_sample read_word read_u8 new validate_grid
    validate_samples
decode_of_both = refl

decode_trailing : decode (written ++ 0 ∷ []) ≡ err trailing_bytes
unfolding written decode
decode_trailing = refl

new_wrong_count : new 700 500 (bright ∷ []) ≡ err invalid_timestamp_grid
unfolding new validate_grid
new_wrong_count = refl

timestamps_grid_example :
    (length (select_video_sequence_timestamps 1200) ≡ div_ceil 1200 (grid_interval 1200))
    × (length (select_video_sequence_timestamps 1200) ≤ max_samples)
    × ((k : ℕ)
        → k < length (select_video_sequence_timestamps 1200)
        → (get_elem? (select_video_sequence_timestamps 1200) k ≡ some (k * grid_interval 1200))
          × (k * grid_interval 1200 < 1200))
    × (1200 ≤ length (select_video_sequence_timestamps 1200) * grid_interval 1200)
timestamps_grid_example = timestamps_grid 1200 (omega arith) (omega arith)

validate_grid_iff_example : (validate_grid 1200 500 3 ≡ ok tt) ↔ (
    (0 < 1200)
    × (video_sequence_interval_ms 1200 ≡ some 500)
    × (3 ≡ length (select_video_sequence_timestamps 1200)))
validate_grid_iff_example = validate_grid_iff 1200 500 3 (omega arith) (omega arith)

decode-encode_example : decode written ≡ ok two
decode-encode_example = decode-encode two written (omega arith) encode_of_both

encode-decode_example : (encode two ≡ ok written) × FingerprintFits two
unfolding written
encode-decode_example = encode-decode written two (omega arith) decode_of_both

-- Both samples have the same hashes, so the eight tokens are one sample's.
tokens_of_two : length (derive_search_tokens bright two) ≡ 8
unfolding derive_search_tokens anchors_from insert_by sort_by token_loop append_hash_tokens dedup
tokens_of_two = refl

derive_search_tokens-Rises_example :
    Rises 0 (derive_search_tokens bright two)
    × All IsToken (derive_search_tokens bright two)
    × (length (derive_search_tokens bright two) ≤ max_tokens)
derive_search_tokens-Rises_example = derive_search_tokens-Rises bright two
