-- ===== src/Uploader/Fuel.antt =====
-- The loop of handleRecvData (IoTRepublicPlus/Broker/CloudUploader.cpp) ends by its own test.
use io_trepublic_plus.Base.{
  ℕ, zero, suc, ◌^◌, ◌<◌, ◌≡◌, ◌≢◌, refl, ap, Option, some, Bytes, length, Option-cases, inl, inr,
  ◌>>=◌, fun_ext, arith,
}
use io_trepublic_plus.Framing.{GetPackageError, no_error, get_completed_package, Taken}
use io_trepublic_plus.Framing.Consumes.{get_completed_package-Cut}
use io_trepublic_plus.Json.{Jansson}
use io_trepublic_plus.Uploader.{Uploader, handle_recv_data, upload_result, uploader_utility}

module _ (J : Jansson) where
  -- What follows a package, by the error that came with it.
  abbrev pub after :
      (Bytes → Uploader → Option (Bytes × Uploader)) → Taken → Uploader → Option (Bytes × Uploader)
  after again t u = elim t.error [ no_error ↦ again t.buffer u | _ ↦ some (t.buffer, u) ]

  after-refused :
      (e : GetPackageError) (again again' : Bytes → Uploader → Option (Bytes × Uploader))
      (t : Taken) (u : Uploader)
      → t.error ≡ e
      → e ≢ no_error
      → after again t u ≡ after again' t u
  after-refused e again again' t u h k = ground arith

  -- On a buffer shorter than 2 ^ 31 bytes, with fuel that is more than the buffer's length, the loop of
  -- handleRecvData ends because a call returns no package: more fuel gives the same.
  pub handle_recv_data-fuel :
      (f g : ℕ) (buffer : Bytes) (u : Uploader)
      → length buffer < 2 ^ 31
      → length buffer < f
      → length buffer < g
      → handle_recv_data J f buffer u ≡ handle_recv_data J g buffer u
  unfolding handle_recv_data
  handle_recv_data-fuel zero g buffer u short hf hg = elim hf [ ]
  handle_recv_data-fuel (suc f) zero buffer u short hf hg = elim hg [ ]
  handle_recv_data-fuel (suc f) (suc g) buffer u short hf hg =
      elim (Option-cases (get_completed_package uploader_utility buffer)) [
        | inl e ↦ rw (e, handle_recv_data) refl
        | inr (t, e) ↦ elim (get_completed_package-Cut uploader_utility buffer short e) [
          | inl cut ↦
              rw (e, handle_recv_data, cut.is_no_error)
                (ap (λ next. upload_result J t.result u >>= next)
                  (fun_ext λ u1.
                    handle_recv_data-fuel f g t.buffer u1 (omega (arith, cut.takes_two))
                      (omega (arith, cut.takes_two)) (omega (arith, cut.takes_two))))
          | inr refusal ↦
              rw (e, handle_recv_data)
                (ap (λ next. upload_result J t.result u >>= next)
                  (fun_ext λ u1.
                    after-refused t.error (handle_recv_data J f) (handle_recv_data J g) t u1 refl
                      refusal.is_error.0))
        ]
      ]
