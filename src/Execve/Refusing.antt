-- ===== src/Execve/Refusing.antt =====
-- What an error of execve leaves.
use oscomp_test_listline.Prelude.{
  ℕ, ◌≤◌, ◌≡◌, ◌⊎◌, refl, subst, inl, inr, List, ltb, Text, Bool-cases, arith,
}
use oscomp_test_listline.Errno.{LinuxError, LinuxResult, ok, err, ◌>>=◌, Result-cases}
use oscomp_test_listline.Loader.{Formats, Layout, Loading, panics, loops, returns, load_user_app}
use oscomp_test_listline.Execve.{
  collect, ExecSpace, Image, refuses, map_trampoline, after_load, replace, sys_execve,
}

after_load_refuses :
    {S : Type 0} (path : Text) (im im' : Image S) (e : LinuxError) (l : Loading S)
    → after_load path im l ≡ refuses e im'
    → im' ≡ record im { aspace = im'.aspace }
unfolding after_load
after_load_refuses path im im' e panics h = ground arith
after_load_refuses path im im' e loops h = ground arith
after_load_refuses path im im' e (returns (ok (a, b)) s) h = ground arith
after_load_refuses path im im' e (returns (err x) s) h =
    let same : record im { aspace = s } ≡ im' = ground (arith, h) in
    subst (λ i. i ≡ record im { aspace = i.aspace }) same refl

module _ {S V : Type 0} (space : ExecSpace S) (formats : Formats V) (layout : Layout) where
  replace_refuses :
      (fuel : ℕ) (path : Text) (args envs : List Text) (im im' : Image S) (e : LinuxError)
      → replace space formats layout fuel path args envs im ≡ refuses e im'
      → (im' ≡ im)
        ⊎ ((cleared : S) × (space.unmap_user_areas im.aspace ≡ ok cleared)
            × (im' ≡ record im { aspace = im'.aspace }))
  unfolding replace
  replace_refuses fuel path args envs im im' e h =
      elim (Result-cases (space.unmap_user_areas im.aspace)) [
        | inr (x, u) ↦ inl (ground (arith, h, u))
        | inl (s1, u) ↦ elim (Result-cases (map_trampoline space s1)) [
          | inr (x, t) ↦
              let same : record im { aspace = s1 } ≡ im' = ground (arith, h, u, t) in
              inr (s1, u, subst (λ i. i ≡ record im { aspace = i.aspace }) same refl)
          | inl (s2, t) ↦ inr (
            s1,
            u,
            after_load_refuses path im im' e
                (load_user_app space.user_space formats layout fuel s2 args envs)
                (ground (arith, h, u, t)),
          )
        ]
      ]

  -- An error of the call is one of two kinds. Either nothing has changed, which is so if the process has
  -- several threads; or the areas of the caller have been unmapped before it, and then only the name and the
  -- path of the executable are those of before.
  pub sys_execve_refuses :
      (fuel : ℕ) (path : LinuxResult Text) (argv envp : LinuxResult (List (LinuxResult Text)))
      (threads : ℕ) (im im' : Image S) (e : LinuxError)
      → sys_execve space formats layout fuel path argv envp threads im ≡ refuses e im'
      → (im' ≡ im)
        ⊎ ((threads ≤ 1)
            × ((cleared : S) × (space.unmap_user_areas im.aspace ≡ ok cleared)
                × (im' ≡ record im { aspace = im'.aspace })))
  unfolding sys_execve
  sys_execve_refuses fuel (err x) argv envp threads im im' e h = inl (ground (arith, h))
  sys_execve_refuses fuel (ok path) argv envp threads im im' e h =
      elim (Result-cases (argv >>= collect)) [
        | inr (x, a) ↦ inl (ground (arith, h, a))
        | inl (args, a) ↦ elim (Result-cases (envp >>= collect)) [
          | inr (x, b) ↦ inl (ground (arith, h, a, b))
          | inl (envs, b) ↦ elim (Bool-cases (ltb 1 threads)) [
            | inl c ↦ inl (ground (arith, h, a, b, c))
            | inr c ↦
                elim (replace_refuses fuel path args envs im im' e (ground (arith, h, a, b, c))) [
                  | inl same ↦ inl same
                  | inr (s1, u, kept) ↦ inr (ground (arith, c), (s1, u, kept))
                ]
          ]
        ]
      ]
