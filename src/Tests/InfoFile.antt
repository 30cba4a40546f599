-- ===== src/Tests/InfoFile.antt =====
-- A VM that is written to its `.info` file and read back.
use lustre_test_vms.Base.{◌≡◌, refl, true, List, [], ◌∷◌, nat_eq}
use lustre_test_vms.Result.{ok, err, value_error}
use lustre_test_vms.Owner.{codes}
use lustre_test_vms.Vm.Files.{digits, digits_on}
use lustre_test_vms.Vm.InfoFile.{
  Text, text, number, texts, pairs, flag, Vm, Readers, show, show_pairs, join, save_text, load_text,
  info_fields,
}
use lustre_test_vms.Vm.InfoFile.Values.{Fits, Specs, Drivers}
use lustre_test_vms.Vm.InfoFile.RoundTrip.{Storable, load_info-save_info}

abbrev readers : Readers
readers = record { load_stored = λ t. ok t; other_int = λ t. err value_error }

abbrev specs : List Text
specs = codes "tcp" ∷ codes "passthrough:0000:3b:00.0" ∷ []

abbrev drivers : List (Text × Text)
drivers = (codes "0000:3b:00.0", codes "mlx5_core") ∷ []

abbrev vm : Vm
vm =
    text (codes "co1")
    ∷ text (codes "192.168.100.2")
    ∷ number 4321
    ∷ text (codes "tap-co1")
    ∷ text (codes "52:54:00:00:00:01")
    ∷ number 2
    ∷ number 4096
    ∷ number 1
    ∷ number 2
    ∷ number 1024
    ∷ number 2048
    ∷ text (codes "/images/base.ext4")
    ∷ text (codes "/kernels/k")
    ∷ number 5
    ∷ number 6
    ∷ number 7
    ∷ text (codes "/src/lustre")
    ∷ text (codes "5.14.0")
    ∷ text (codes "base.ext4")
    ∷ text (codes "4096:2")
    ∷ text (codes "rocky9")
    ∷ text (codes "x86_64")
    ∷ text (codes "dev")
    ∷ text (codes "claude:a")
    ∷ text (codes "base")
    ∷ texts specs
    ∷ texts (codes "10.0.0.2" ∷ codes "10.0.0.3" ∷ [])
    ∷ texts (codes "fd00::2" ∷ codes "fd00::3" ∷ [])
    ∷ pairs drivers
    ∷ text (codes "quiet a=b")
    ∷ number 0
    ∷ flag true
    ∷ text (codes "")
    ∷ text (codes "")
    ∷ text (codes "none")
    ∷ text (codes "")
    ∷ []

storable : Storable readers (info_fields (codes "co1") 1024 2048) vm
unfolding Storable Fits Specs Drivers show show_pairs join digits digits_on nat_eq
storable = (
  (_, refl),
  refl,
  (
    (_, refl),
    refl,
    (
      (_, refl),
      refl,
      (
        (_, refl),
        refl,
        (
          (_, refl),
          refl,
          (
            (_, refl),
            refl,
            (
              (_, refl),
              refl,
              (
                (_, refl),
                refl,
                (
                  (_, refl),
                  refl,
                  (
                    (_, refl),
                    refl,
                    (
                      (_, refl),
                      refl,
                      (
                        (_, refl),
                        refl,
                        (
                          (_, refl),
                          refl,
                          (
                            (_, refl),
                            refl,
                            (
                              (_, refl),
                              refl,
                              (
                                (_, refl),
                                refl,
                                (
                                  (_, refl),
                                  refl,
                                  (
                                    (_, refl),
                                    refl,
                                    (
                                      (_, refl),
                                      refl,
                                      (
                                        (_, refl),
                                        refl,
                                        (
                                          (_, refl),
                                          refl,
                                          (
                                            (_, refl),
                                            refl,
                                            (
                                              (_, refl),
                                              refl,
                                              (
                                                (_, refl),
                                                refl,
                                                (
                                                  (_, refl),
                                                  refl,
                                                  (
                                                    (_, refl, refl, (refl, (refl, tt))),
                                                    refl,
                                                    (
                                                      (_, refl, refl),
                                                      refl,
                                                      (
                                                        (_, refl, refl),
                                                        refl,
                                                        (
                                                          (_, refl, (refl, refl, tt)),
                                                          refl,
                                                          (
                                                            (_, refl),
                                                            refl,
                                                            (
                                                            (_, refl),
                                                            refl,
                                                            (
                                                            (_, refl),
                                                            refl,
                                                            (
                                                            (_, refl),
                                                            refl,
                                                            (
                                                            (_, refl),
                                                            refl,
                                                            (
                                                            (_, refl),
                                                            refl,
                                                            ((_, refl), refl, tt),
                                                            ),
                                                            ),
                                                            ),
                                                            ),
                                                            ),
                                                          ),
                                                        ),
                                                      ),
                                                    ),
                                                  ),
                                                ),
                                              ),
                                            ),
                                          ),
                                        ),
                                      ),
                                    ),
                                  ),
                                ),
                              ),
                            ),
                          ),
                        ),
                      ),
                    ),
                  ),
                ),
              ),
            ),
          ),
        ),
      ),
    ),
  ),
)

load_info-save_info_example :
    load_text readers
      (info_fields (codes "co1") 1024 2048)
      (save_text (info_fields (codes "co1") 1024 2048) vm)
    ≡ ok vm
load_info-save_info_example = load_info-save_info readers (codes "co1") 1024 2048 vm storable
