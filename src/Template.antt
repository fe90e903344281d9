-- ===== src/Template.antt =====
-- crates/procnote-core/src/template/types.rs: the data model of a procedure template.
use procnote.Prelude.{ℕ, String, Bool, Option, List}

pub record Equipment : Type 0 where
  pub id : String
  pub name : String

-- YAML frontmatter metadata.
pub record ProcedureMetadata : Type 0 where
  pub id : String
  pub title : String
  pub version : String
  pub author : Option String
  pub equipment : List Equipment
  pub requirement_traces : List String

pub data InputType : Type 0 where
  measurement text selection attachment : InputType

-- The bounds are `f64`, which nothing here computes with: they are kept as their 64-bit patterns.
pub data ExpectedValue : Type 0 where
  range : (min max : ℕ) → ExpectedValue
  exact : String → ExpectedValue

pub record InputDefinition : Type 0 where
  pub id : String
  pub label : String
  pub input_type : InputType
  pub unit : Option String
  pub options : List String
  pub expected : Option ExpectedValue

pub data TableAlignment : Type 0 where
  none left center right : TableAlignment

-- A body cell of a table.
pub data TableCell : Type 0 where
  text : (text : String) → TableCell
  input : (input_id : String) → TableCell
  checkbox : (id : Option String) (checked : Bool) → TableCell

-- Content items of a step. `nesting_level` is a `u32`, which is only copied.
pub data StepContent : Type 0 where
  prose : (text : String) → StepContent
  checkbox :
      (id : Option String) (text : String) (checked : Bool) (nesting_level : Option ℕ) → StepContent
  input_block : (inputs : List InputDefinition) → StepContent
  table :
      (alignments : List TableAlignment) (header : List String) (rows : List (List TableCell))
      → StepContent

pub record Step : Type 0 where
  pub id : Option String
  pub heading : String
  pub content : List StepContent

pub record ProcedureTemplate : Type 0 where
  pub metadata : ProcedureMetadata
  pub steps : List Step
