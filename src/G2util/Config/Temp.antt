-- ===== src/G2util/Config/Temp.antt =====
-- The temporary file of settings.
use gof.Base.{◌≡◌, sym, ap, ◌∙◌, inl, inr, true, arith, Bool-cases}
use gof.Fault.{Err, ok, err, Result-cases}
use gof.G2util.Config.{Viper, Files, load_from_temp, store_merged}

-- What is assumed of viper: reading and writing the configuration leaves the temporary file.
pub record IsKeeping {W V S : Type 0} (x : Viper W V S) (f : Files W) : Type 0 where
  pub exists-read :
      (v : V) (w : W)
      → f.exists f.temp_file w ≡ true
      → f.exists f.temp_file (x.read_in_config v w).1 ≡ true
  pub exists-write :
      (v : V) (w : W)
      → f.exists f.temp_file w ≡ true
      → f.exists f.temp_file (x.write_config v w).1 ≡ true

module _ {W V S : Type 0} (x : Viper W V S) (f : Files W) (laws : IsKeeping x f) where
  -- Settings handed over by the temporary file are not lost: while reading and writing leave the file
  -- alone, every error of `LoadFromTemp` leaves it in place for the next start.
  pub load_from_temp_kept :
      (v : V) (w : W) (e : Err)
      → (load_from_temp x f v w).0 ≡ err e
      → f.exists f.temp_file (load_from_temp x f v w).1 ≡ true
  load_from_temp_kept v w e h = elim (Bool-cases (f.exists f.temp_file w)) [
    | inr n ↦ (unfold load_from_temp in ground (arith, h, n))
    | inl n ↦
        (let start = x.set_config_file f.temp_file x.new in
          let u = (x.read_in_config start w).1 in
          let here = laws.exists-read start w n in
          elim (Result-cases (x.read_in_config start w).0) [
            | inr (y, r) ↦ (unfold load_from_temp in ground (arith, n, r, here))
            | inl (t, r) ↦ elim (Result-cases (x.merge_config_map (x.all_settings t) v)) [
              | inr (y, m) ↦ (unfold load_from_temp in ground (arith, n, r, m, here))
              | inl (z, m) ↦ elim (Result-cases (x.write_config z u).0) [
                | inr (y, q) ↦
                    (unfold load_from_temp store_merged in
                      ground (arith, n, r, m, q, laws.exists-write z u here))
                | inl (y, q) ↦ (unfold load_from_temp store_merged in ground (arith, n, r, m, q, h))
              ]
            ]
          ])
  ]

  -- If there is a file and `LoadFromTemp` succeeds, the settings were merged and written, and only
  -- then was the file removed.
  pub load_from_temp_done :
      (v v' : V) (w : W)
      → f.exists f.temp_file w ≡ true
      → (load_from_temp x f v w).0 ≡ ok v'
      → (t : V) × (u : W) × (x.read_in_config (x.set_config_file f.temp_file x.new) w ≡ (ok t, u))
        × (x.merge_config_map (x.all_settings t) v ≡ ok v')
        × ((x.write_config v' u).0 ≡ ok tt)
        × ((load_from_temp x f v w).1 ≡ f.remove f.temp_file (x.write_config v' u).1)
  load_from_temp_done v v' w here h =
      let start = x.set_config_file f.temp_file x.new in
      let u = (x.read_in_config start w).1 in
      elim (Result-cases (x.read_in_config start w).0) [
        | inr (y, r) ↦ (unfold load_from_temp in ground (arith, here, r, h))
        | inl (t, r) ↦ elim (Result-cases (x.merge_config_map (x.all_settings t) v)) [
          | inr (y, m) ↦ (unfold load_from_temp in ground (arith, here, r, m, h))
          | inl (z, m) ↦ elim (Result-cases (x.write_config z u).0) [
            | inr (y, q) ↦ (unfold load_from_temp store_merged in ground (arith, here, r, m, q, h))
            | inl (y, q) ↦
                (let same : z ≡ v' =
                    (unfold load_from_temp store_merged in ground (arith, here, r, m, q, h)) in
                  (
                    t,
                    u,
                    ground (arith, r),
                    m ∙ ap ok same,
                    ap (λ s. (x.write_config s u).0) (sym same) ∙ q,
                    (unfold load_from_temp store_merged in ground (arith, here, r, m, q, same)),
                  ))
          ]
        ]
      ]
