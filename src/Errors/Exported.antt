-- ===== src/Errors/Exported.antt =====
-- errors.go: the API errors that the package exports for errors.Is and that no function of the
-- package compares with by itself.
use tamga_go.Text.{codes}
use tamga_go.Errors.{ApiError, known}

abbrev pub err_unauthorized : ApiError
err_unauthorized = known 401 (codes "UNAUTHORIZED")

abbrev pub err_forbidden : ApiError
err_forbidden = known 403 (codes "FORBIDDEN")

abbrev pub err_internal : ApiError
err_internal = known 500 (codes "INTERNAL_SERVER_ERROR")

abbrev pub err_key_taken : ApiError
err_key_taken = known 409 (codes "KEY_TAKEN")

abbrev pub err_pid_taken : ApiError
err_pid_taken = known 409 (codes "PID_TAKEN")

abbrev pub err_check_in_not_required : ApiError
err_check_in_not_required = known 422 (codes "CHECK_IN_NOT_REQUIRED")

abbrev pub err_license_not_encrypted : ApiError
err_license_not_encrypted = known 422 (codes "LICENSE_NOT_ENCRYPTED")

abbrev pub err_license_key_missing : ApiError
err_license_key_missing = known 422 (codes "LICENSE_KEY_MISSING")

abbrev pub err_dataset_invalid : ApiError
err_dataset_invalid = known 422 (codes "DATASET_INVALID")

abbrev pub err_signing_key_missing : ApiError
err_signing_key_missing = known 422 (codes "SIGNING_KEY_MISSING")

abbrev pub err_secret_key_missing : ApiError
err_secret_key_missing = known 422 (codes "SECRET_KEY_MISSING")

abbrev pub err_machine_limit_exceeded : ApiError
err_machine_limit_exceeded = known 422 (codes "MACHINE_LIMIT_EXCEEDED")

abbrev pub err_core_limit_exceeded : ApiError
err_core_limit_exceeded = known 422 (codes "CORE_LIMIT_EXCEEDED")

abbrev pub err_memory_limit_exceeded : ApiError
err_memory_limit_exceeded = known 422 (codes "MEMORY_LIMIT_EXCEEDED")

abbrev pub err_disk_limit_exceeded : ApiError
err_disk_limit_exceeded = known 422 (codes "DISK_LIMIT_EXCEEDED")

abbrev pub err_too_many_processes : ApiError
err_too_many_processes = known 422 (codes "TOO_MANY_PROCESSES")

abbrev pub err_license_suspended : ApiError
err_license_suspended = known 401 (codes "LICENSE_SUSPENDED")

abbrev pub err_license_expired : ApiError
err_license_expired = known 401 (codes "LICENSE_EXPIRED")

abbrev pub err_license_not_allowed : ApiError
err_license_not_allowed = known 401 (codes "LICENSE_NOT_ALLOWED")
