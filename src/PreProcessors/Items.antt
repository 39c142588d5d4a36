-- ===== src/PreProcessors/Items.antt =====
-- `pre_processor_pipeline.ts`, `empty_content.ts` and `supported_language.ts`. Log lines are left out.
use khulnasoft_lsp.Base.{
  Bool, true, false, List, [], ◌∷◌, Option, none, some, String, ◌||◌, filter, JsText, has_text,
  ◌===◌, text_key,
}

-- The fields of `AIContextItem` that are read: the content, and the language of an item that is a file.
pub record AiContextItem : Type 0 where
  pub content : Option JsText
  pub is_file : Bool
  pub language_id : Option String

-- `PreProcessorItems`
pub record PreProcessorItems : Type 0 where
  pub prefix : JsText
  pub suffix : JsText
  pub ai_context_items : List AiContextItem

-- The error that a pre-processor may give beside its items.
pub data Severity : Type 0 where
  fine continues fatal : Severity

-- `PreProcessor.process`, which may also throw.
abbrev pub PreProcessor : Type 0
PreProcessor = PreProcessorItems → Option (PreProcessorItems × Severity)

abbrev pub unless_fatal : Option (PreProcessorItems × Severity) → Option PreProcessorItems
unless_fatal none = none
unless_fatal (some (items, fatal)) = none
unless_fatal (some (items, _)) = some items

abbrev pub and_then :
    Option PreProcessorItems
    → (PreProcessorItems → Option PreProcessorItems)
    → Option PreProcessorItems
and_then none f = none
and_then (some items) f = f items

-- `DefaultPreProcessorPipeline.run`; `none` when it throws.
unfoldable pub run : List PreProcessor → PreProcessorItems → Option PreProcessorItems
run [] items = some items
run (processor ∷ processors) items =
    and_then (unless_fatal (processor items)) (λ next. run processors next)

abbrev pub or_empty : Option JsText → JsText
or_empty none = []
or_empty (some content) = content

-- `EmptyContentPreProcessor.process`
unfoldable pub empty_content : PreProcessor
unfolding filter
empty_content items = some (
  record items {
    ai_context_items =
        filter (λ (item : AiContextItem). has_text (or_empty item.content)) items.ai_context_items;
  },
  fine,
)

-- An item that is no file, or has no language, or an empty one, is kept.
abbrev pub is_supported : (String → Bool) → Bool → Option String → Bool
is_supported is_language_enabled false language = true
is_supported is_language_enabled true none = true
is_supported is_language_enabled true (some language) =
    language === "" || is_language_enabled language

-- `SupportedLanguagePreProcessor.process`, with a service that does not throw.
unfoldable pub supported_language : (String → Bool) → PreProcessor
unfolding filter
supported_language is_language_enabled items = some (
  record items {
    ai_context_items =
        filter
          (λ (item : AiContextItem). is_supported is_language_enabled item.is_file item.language_id)
          items.ai_context_items;
  },
  fine,
)
