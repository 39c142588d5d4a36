-- ===== src/PreProcessors/Tests.antt =====
-- The theorem on a short document with one item.
use khulnasoft_lsp.Base.{false, [], ◌∷◌, some, none, ◌≡◌, refl, arith}
use khulnasoft_lsp.PreProcessors.Items.{PreProcessorItems, fine}
use khulnasoft_lsp.PreProcessors.ByteSize.{limit_byte_size, slice_bytes, get_byte_size, width}
use khulnasoft_lsp.PreProcessors.ByteSize.Bound.{IsLimited, limit_byte_size-IsLimited}

abbrev items : PreProcessorItems
items = record {
  prefix = 120 ∷ [];
  suffix = 233 ∷ [];
  ai_context_items =
      record { content = some (97 ∷ 98 ∷ []); is_file = false; language_id = none } ∷ [];
}

-- A code point of four bytes that is cut after one becomes one of three bytes.
slice_cut : slice_bytes 1 (128512 ∷ []) ≡ 65533 ∷ []
unfolding slice_bytes width
slice_cut = refl

limit_byte_size-IsLimited_example :
    (limited : PreProcessorItems) × (limit_byte_size items ≡ some (limited, fine))
    × IsLimited items limited
unfolding get_byte_size width
limit_byte_size-IsLimited_example = limit_byte_size-IsLimited items (omega arith)
