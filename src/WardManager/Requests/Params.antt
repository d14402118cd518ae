-- ===== src/WardManager/Requests/Params.antt =====
-- ward_manager.cpp, the parameters of a vehicle. `I` are 32-bit integers and `F` is `float`.
use karshipta.Common.{none, ◌++◌, some, true, Option, Bool, List, false, Text, text, ◌∷◌, []}
use karshipta.WardManager.Requests.{Presence, refusal, unknown, unconnected, connected}

pub data ParamType : Type 0 where
  unspecified_type int_type float_type : ParamType

-- `value` is the one that the type names; the other field is unset.
pub record Param (I F : Type 0) : Type 0 where
  pub name : Text
  pub type : ParamType
  pub int_value : I
  pub float_value : F

-- The parameters of a vehicle, by MAVSDK: a read has a value or none, a write has an error or none.
pub record ParamServer (I F V : Type 0) : Type 0 where
  pub int_zero : I
  pub float_zero : F
  pub get_all_params : V → (List (Text × I) × List (Text × F)) × V
  pub set_param_int : Text → I → V → Option Text × V
  pub set_param_float : Text → F → V → Option Text × V
  pub get_param_int : Text → V → Option I × V
  pub get_param_float : Text → V → Option F × V

pub record ParamAck (I F : Type 0) : Type 0 where
  pub request_id : Text
  pub ward_id : Text
  pub success : Bool
  pub message : Text
  pub param : Option (Param I F)

pub record ParamList (I F : Type 0) : Type 0 where
  pub request_id : Text
  pub ward_id : Text
  pub success : Bool
  pub message : Text
  pub params : List (Param I F)

module _ {I F V : Type 0} (server : ParamServer I F V) where
  unfoldable pub int_param : Text → I → Param I F
  int_param name value = record {
    name = name;
    type = int_type;
    int_value = value;
    float_value = server.float_zero;
  }

  unfoldable pub float_param : Text → F → Param I F
  float_param name value = record {
    name = name;
    type = float_type;
    int_value = server.int_zero;
    float_value = value;
  }

  unfoldable pub int_params : List (Text × I) → List (Param I F)
  unfolding int_param
  int_params [] = []
  int_params ((name, value) ∷ rest) = int_param name value ∷ int_params rest

  unfoldable pub float_params : List (Text × F) → List (Param I F)
  unfolding float_param
  float_params [] = []
  float_params ((name, value) ∷ rest) = float_param name value ∷ float_params rest

  unfoldable pub list_params : Text → Text → Option Text → V → ParamList I F × V
  unfolding int_params float_params
  list_params id ward (some reason) v = (
    record { request_id = id; ward_id = ward; success = false; message = reason; params = [] },
    v,
  )
  list_params id ward none v =
      let all = server.get_all_params v in
      (
        record {
          request_id = id;
          ward_id = ward;
          success = true;
          message = [];
          params = int_params all.0.0 ++ float_params all.0.1;
        },
        all.1,
      )

  unfoldable pub handle_get_params : Text → Text → Presence → V → ParamList I F × V
  unfolding list_params refusal
  handle_get_params id ward presence v = list_params id ward (refusal ward presence) v

  unfoldable pub param_rejected : Text → Text → Text → ParamAck I F
  param_rejected id ward reason = record {
    request_id = id;
    ward_id = ward;
    success = false;
    message = reason;
    param = none;
  }

  unfoldable pub param_set : Text → Text → Param I F → ParamAck I F
  param_set id ward param = record {
    request_id = id;
    ward_id = ward;
    success = true;
    message = [];
    param = some param;
  }

  -- What is read back, or the request where that fails.
  unfoldable pub confirmed_int : Param I F → Option I → Param I F
  unfolding int_param
  confirmed_int param none = param
  confirmed_int param (some value) = int_param param.name value

  unfoldable pub confirmed_float : Param I F → Option F → Param I F
  unfolding float_param
  confirmed_float param none = param
  confirmed_float param (some value) = float_param param.name value

  unfoldable pub after_int_write : Text → Text → Param I F → Option Text × V → ParamAck I F × V
  unfolding param_rejected param_set confirmed_int
  after_int_write id ward param (some error, v) = (param_rejected id ward error, v)
  after_int_write id ward param (none, v) =
      let read = server.get_param_int param.name v in
      (param_set id ward (confirmed_int param read.0), read.1)

  unfoldable pub after_float_write : Text → Text → Param I F → Option Text × V → ParamAck I F × V
  unfolding param_rejected param_set confirmed_float
  after_float_write id ward param (some error, v) = (param_rejected id ward error, v)
  after_float_write id ward param (none, v) =
      let read = server.get_param_float param.name v in
      (param_set id ward (confirmed_float param read.0), read.1)

  unfoldable pub write_param : Text → Text → Param I F → ParamType → V → ParamAck I F × V
  unfolding after_int_write after_float_write param_rejected
  write_param id ward param int_type v =
      after_int_write id ward param (server.set_param_int param.name param.int_value v)
  write_param id ward param float_type v =
      after_float_write id ward param (server.set_param_float param.name param.float_value v)
  write_param id ward param unspecified_type v =
      (param_rejected id ward (text "param has unspecified type"), v)

  -- That the request has a parameter is asked before the link, and after the ward.
  unfoldable pub set_param_of : Text → Text → Option (Param I F) → Presence → V → ParamAck I F × V
  unfolding write_param param_rejected
  set_param_of id ward param unknown v =
      (param_rejected id ward (text "unknown ward_id: " ++ ward), v)
  set_param_of id ward none unconnected v =
      (param_rejected id ward (text "set_param has no param"), v)
  set_param_of id ward none connected v =
      (param_rejected id ward (text "set_param has no param"), v)
  set_param_of id ward (some param) unconnected v =
      (param_rejected id ward (text "ward is not connected"), v)
  set_param_of id ward (some param) connected v = write_param id ward param param.type v

  unfoldable pub handle_set_param :
      Text → Text → Option (Param I F) → Presence → V → ParamAck I F × V
  unfolding set_param_of
  handle_set_param id ward param presence v = set_param_of id ward param presence v
