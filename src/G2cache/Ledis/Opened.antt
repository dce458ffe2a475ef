-- ===== src/G2cache/Ledis/Opened.antt =====
-- Which database the cache works on.
use gof.Base.{◌≡◌, inl, inr, false, Option, none, some, arith, Text}
use gof.Fault.{Result-cases}
use gof.G2cache.Ledis.{Library, LeDis, new_ledis, config_of, set_instance, instance_of, db}

module _ {W C I D : Type 0} (x : Library W C I D) (store_root : Text) where
  -- what opening the default gives
  db_opens :
      (l : LeDis C I D) (w : W)
      → l.opened ≡ false
      → db x store_root l w ≡ db x store_root new_ledis w
  db_opens l w h = elim (Result-cases (x.open_with (config_of x store_root none) w).0) [
    | inr (e, p) ↦ (unfold db instance_of set_instance in ground (arith, h, p))
    | inl (i, p) ↦
        elim (Result-cases (x.select i (x.open_with (config_of x store_root none) w).1).0) [
          | inr (e, q) ↦ (unfold db instance_of set_instance in ground (arith, h, p, q))
          | inl (d, q) ↦ (unfold db instance_of set_instance in ground (arith, h, p, q))
        ]
  ]

  db_again :
      (l m : LeDis C I D) (w v u : W) (d : Option D)
      → l.opened ≡ false
      → db x store_root l w ≡ some ((d, m), v)
      → db x store_root m u ≡ some ((d, m), u)
  db_again l m w v u d h g = elim (Result-cases (x.open_with (config_of x store_root none) w).0) [
    | inr (e, p) ↦ (unfold db instance_of set_instance in ground (arith, h, p, g))
    | inl (i, p) ↦
        elim (Result-cases (x.select i (x.open_with (config_of x store_root none) w).1).0) [
          | inr (e, q) ↦ (unfold db instance_of set_instance in ground (arith, h, p, q, g))
          | inl (b, q) ↦ (unfold db instance_of set_instance in ground (arith, h, p, q, g))
        ]
  ]

  -- The first use of the cache opens the default: whatever configuration, instance or database was set
  -- before, by whichever setter, it works on the database that the cache would work on with nothing
  -- set. Once it is open, the cache stays with it: the next use gives the same database, and opens
  -- nothing.
  pub db_first_use :
      (l : LeDis C I D) (w : W)
      → l.opened ≡ false
      → (db x store_root l w ≡ db x store_root new_ledis w)
        × ((d : Option D) (m : LeDis C I D) (v u : W)
            → db x store_root l w ≡ some ((d, m), v)
            → db x store_root m u ≡ some ((d, m), u))
  db_first_use l w h = (db_opens l w h, λ d m v u g. db_again l m w v u d h g)
