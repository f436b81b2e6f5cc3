-- ===== src/Model.antt =====
-- src/model/: the objects of the storage (rules, links, resources), as they are deserialised.
pub mod Loader
use eafcc_core.Prelude.{ℕ, Bool, List}
use eafcc_core.Text.{Text}
use eafcc_core.F32.{F32}
use eafcc_core.RuleEngine.{Condition}

-- A raw object of the storage, and the name of one.
abbrev pub Bytes : Type 0
Bytes = List ℕ

abbrev pub ObjectId : Type 0
ObjectId = List ℕ

-- `J` is `serde_json::Value`.
pub record RootCommon (J : Type 0) : Type 0 where
  pub version : ℕ
  pub kind : Text
  pub meta : J
  pub spec : J

pub record RuleMeta : Type 0 where
  pub desc : Text
  pub tags : List Text

pub record RuleSpec : Type 0 where
  pub rule : Condition

pub record Rule : Type 0 where
  pub meta : RuleMeta
  pub spec : RuleSpec

pub record LinkMeta : Type 0 where
  pub desc : Text
  pub tags : List Text

pub record LinkSpec : Type 0 where
  pub pri : F32
  pub is_neg : Bool
  pub ver : Text
  pub rule : Text
  pub reses : List Text

pub record Link : Type 0 where
  pub meta : LinkMeta
  pub spec : LinkSpec

pub record ResMeta : Type 0 where
  pub desc : Text
  pub tags : List Text

-- The source's field `data` is `item_data`.
pub record ResSpecItem (J : Type 0) : Type 0 where
  pub content_type : Text
  pub key : Text
  pub item_data : Text
  pub schema : J

pub record Res (J : Type 0) : Type 0 where
  pub meta : ResMeta
  pub spec : List (ResSpecItem J)
