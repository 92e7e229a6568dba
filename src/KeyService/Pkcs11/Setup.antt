-- ===== src/KeyService/Pkcs11/Setup.antt =====
-- keyservice/pkcs11_setup.go: `NewPKCS11` and `Close`, with `findSlotByTokenLabel` of pkcs11_api.go.
use ortholog_artifact_store.Base.{
  ℕ, Text, text, text_eq, is_empty, decimal, quote, length, ok, err, Bool, true, List, [], ◌∷◌,
  ◌++◌, if◌then◌else◌,
}
use ortholog_artifact_store.KeyService.Calls.{Calls, pure, raise, failing, or_undo, ◌>>=◌, ◌>>◌}
use ortholog_artifact_store.KeyService.Vault.{or_default}
use ortholog_artifact_store.KeyService.Pkcs11.{
  Pkcs11Ctx, Pkcs11Config, Pkcs11, Pkcs11State, pkcs11_prefix, ctx_error, trim_nul,
}

module _ (M : Pkcs11Ctx) where
  -- A slot whose token does not answer is passed over.
  unfoldable pub scan_slots : Text → ℕ → List ℕ → Calls Text M.State ℕ
  unfolding decimal trim_nul text_eq quote
  scan_slots wanted count [] w =
      raise
        (pkcs11_prefix
          ++ (text ": no slot with token label "
              ++ (quote wanted ++ (text " (have " ++ (decimal count ++ text " slot(s))")))))
        w
  scan_slots wanted count (slot ∷ slots) w =
      let (r, w') = M.get_token_label slot w in
      let rest = scan_slots wanted count slots w' in
      elim r [
        | err e ↦ rest
        | ok given ↦ if text_eq (trim_nul given) wanted then (ok slot, w') else rest
      ]

  unfoldable pub find_slot_by_token_label : Text → Calls Text M.State ℕ
  unfolding scan_slots
  find_slot_by_token_label wanted = do
    slots ← failing (ctx_error M (text "GetSlotList")) M.get_slot_list
    scan_slots wanted (length slots) slots

  abbrev pub destroy_ctx : Calls Text M.State (Unit {0})
  destroy_ctx w = (ok tt, M.destroy w)

  abbrev pub finalize_ctx : Calls Text M.State (Unit {0})
  finalize_ctx w = (ok tt, M.destroy (M.finalize w).1)

  -- What is done once the module is loaded.
  unfoldable pub start_ctx : Pkcs11Config → Calls Text M.State Pkcs11
  unfolding find_slot_by_token_label
  start_ctx cfg = do
    or_undo (failing (ctx_error M (text "Initialize")) M.initialize) destroy_ctx
    slot ← or_undo (find_slot_by_token_label cfg.token_label) finalize_ctx
    pure (record { cfg = cfg; slot_id = slot })

  abbrev pub pkcs11_defaults : Pkcs11Config → Pkcs11Config
  pkcs11_defaults cfg = record cfg {
    key_label_prefix = or_default cfg.key_label_prefix (text "artifact-");
  }

  -- `NewPKCS11`. `loads` says whether `pkcs11.New` finds the module.
  unfoldable pub new_pkcs11 : (Text → Bool) → Pkcs11Config → Calls Text M.State Pkcs11
  unfolding start_ctx quote
  new_pkcs11 loads cfg =
      if is_empty cfg.module_path
      then raise (text "keyservice/pkcs11: ModulePath is required")
      else if is_empty cfg.token_label
      then raise (text "keyservice/pkcs11: TokenLabel is required")
      else if is_empty cfg.pin
      then raise (text "keyservice/pkcs11: Pin is required")
      else if loads cfg.module_path
      then start_ctx (pkcs11_defaults cfg)
      else raise (text "keyservice/pkcs11: failed to load module " ++ quote cfg.module_path)

  -- `Close`
  unfoldable pub close_service : Pkcs11State M.State → Pkcs11State M.State
  close_service v =
      if v.closed then v else record { world = M.destroy (M.finalize v.world).1; closed = true }
