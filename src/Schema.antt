-- ===== src/Schema.antt =====
-- include/metal/schema_types.hpp: the description of a database schema.
use metal_orm_cpp.Base.{Bool, Option, List, Text}

pub record ForeignKeyReference : Type 0 where
  pub table : Text
  pub column : Text
  pub name : Option Text
  pub on_delete : Option Text
  pub on_update : Option Text
  pub deferrable : Bool
  pub schema : Option Text

pub record DatabaseColumn : Type 0 where
  pub name : Text
  pub type_name : Text
  pub not_null : Bool
  pub unique : Bool
  pub unique_name : Option Text
  pub default_value : Option Text
  pub auto_increment : Bool
  pub references : Option ForeignKeyReference
  pub check : Option Text
  pub comment : Option Text

pub record DatabaseIndexColumn : Type 0 where
  pub column : Text

pub record DatabaseIndex : Type 0 where
  pub name : Text
  pub columns : List DatabaseIndexColumn
  pub unique : Bool
  pub condition : Option Text

pub record DatabaseCheck : Type 0 where
  pub name : Option Text
  pub expression : Text

pub record DatabaseTable : Type 0 where
  pub name : Text
  pub columns : List DatabaseColumn
  pub primary_key : List Text
  pub indexes : List DatabaseIndex
  pub checks : List DatabaseCheck
  pub comment : Option Text
  pub primary_key_name : Option Text
