-- ===== src/AiContext/Items.antt =====
-- `packages/lib_ai_context/src/index.ts`. Of the data of an item its labels, icon and language are left out.
use khulnasoft_lsp.Base.{
  ℕ, Bool, true, List, [], ◌∷◌, Option, String, JsText, eqb, Key, ◌≡◌, ◌↔◌, arith,
}

pub data ProviderType : Type 0 where
  open_tab local_file_search issue merge_request snippet dependency local_git : ProviderType

abbrev number_of : ProviderType → ℕ
number_of ProviderType.open_tab = 0
number_of ProviderType.local_file_search = 1
number_of ProviderType.issue = 2
number_of ProviderType.merge_request = 3
number_of ProviderType.snippet = 4
number_of ProviderType.dependency = 5
number_of ProviderType.local_git = 6

pub same_number_iff : (a b : ProviderType) → (eqb (number_of a) (number_of b) ≡ true) ↔ (a ≡ b)
same_number_iff a b = ground arith

instance abbrev pub type_key : Key ProviderType
type_key = record { same = λ a b. eqb (number_of a) (number_of b); same_iff = same_number_iff }

pub data Category : Type 0 where
  file snippet issue merge_request dependency local_git : Category

pub record Metadata : Type 0 where
  pub enabled : Bool
  pub disabled_reasons : List String
  pub sub_type : ProviderType

pub record ContextItem : Type 0 where
  pub id : String
  pub category : Category
  pub content : Option JsText
  pub metadata : Metadata

-- `AIContextPolicyResponse`
pub record PolicyResponse : Type 0 where
  pub enabled : Bool
  pub disabled_reasons : List String

-- `AIContextMapping`
abbrev pub context_mapping : Category → List ProviderType
context_mapping Category.file = ProviderType.open_tab ∷ ProviderType.local_file_search ∷ []
context_mapping Category.snippet = ProviderType.snippet ∷ []
context_mapping Category.issue = ProviderType.issue ∷ []
context_mapping Category.merge_request = ProviderType.merge_request ∷ []
context_mapping Category.dependency = ProviderType.dependency ∷ []
context_mapping Category.local_git = ProviderType.local_git ∷ []

-- `Object.keys(AIContextMapping)`
abbrev pub categories : List Category
categories =
    Category.file ∷ Category.snippet ∷ Category.issue ∷ Category.merge_request ∷ Category.dependency
    ∷ Category.local_git ∷ []

-- `items.map((item) => item.id)`
abbrev pub ids_of : List ContextItem → List String
ids_of [] = []
ids_of (item ∷ items) = item.id ∷ ids_of items
